-- ===== src/Identify/Tests.antt =====
-- Runs of the IDENTIFY decoder, and its theorem at one where its hypotheses hold.
use lsdsk.Prelude.{ℕ, List, [], ◌∷◌, ◌++◌, replicate, arith}
use lsdsk.Identify.{decode_identify}
use lsdsk.Identify.Words.{AreBytes}
use lsdsk.Identify.Post.{Answers, decode_identify-Answers}

-- The word 27 begins the model, and a count of 512 sectors stands in the word 60.
abbrev counted : List ℕ
counted = 0 ∷ 2 ∷ (replicate 390 0 ++ [])

abbrev named : List ℕ
named = 0x64 ∷ 0x41 ∷ (replicate 64 0 ++ counted)

abbrev page : List ℕ
page = replicate 54 0 ++ named

AreBytes-zeros : (n : ℕ) (bytes : List ℕ) → AreBytes bytes → AreBytes (replicate n 0 ++ bytes)
AreBytes-zeros ℕ.zero bytes h = h
AreBytes-zeros (ℕ.suc n) bytes h = (omega arith, AreBytes-zeros n bytes h)

counted-AreBytes : AreBytes counted
counted-AreBytes = (omega arith, (omega arith, AreBytes-zeros 390 [] tt))

named-AreBytes : AreBytes named
named-AreBytes = (omega arith, (omega arith, AreBytes-zeros 64 counted counted-AreBytes))

page-AreBytes : AreBytes page
page-AreBytes = AreBytes-zeros 54 named named-AreBytes

decode_identify-Answers_example : Answers page (decode_identify page)
decode_identify-Answers_example = decode_identify-Answers page page-AreBytes
