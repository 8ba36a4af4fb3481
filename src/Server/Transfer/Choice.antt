-- ===== src/Server/Transfer/Choice.antt =====
-- SendNext does not send the file that the logger may still be writing.
use study_and_development_of.Base.{
  ℕ, ◌≤◌, ◌≡◌, ◌≢◌, ℤ, pos, is_pos, at_least, ◌≤ℤ◌, Bytes, List, [], ◌∷◌, All, true, false, arith,
}
use study_and_development_of.World.{World}
use study_and_development_of.Common.Info.{TrInfo, NextFile}
use study_and_development_of.Server.Scan.Files.{number_of, Summary}
use study_and_development_of.Server.Transfer.{sending, decide_next}

squeezed : (low high a b : ℤ) → low ≤ℤ a → a ≤ℤ high → low ≤ℤ b → b ≤ℤ high → high ≤ℤ low → a ≡ b
squeezed low high a b h1 h2 h3 h4 h5 = ground arith

-- With the logger running and one directory only, a file is sent only if there are two.
sending-needs_two :
    (logger_state : ℤ) (tr : TrInfo)
    → decide_next logger_state tr ≡ sending
    → is_pos logger_state 0 ≡ false
    → tr.d.count ≡ pos 1
    → at_least 2 tr.f.count ≡ true
unfolding decide_next
sending-needs_two logger_state tr h busy one = ground arith

few : (z : ℤ) (k : ℕ) → z ≡ pos k → k ≤ 1 → at_least 2 z ≡ true → ⊥
few z k e le two = ground arith

module _ {S : Type 0} (w : World S) where
  -- No two of the names carry the same number.
  abbrev pub Distinct : List Bytes → Type 0
  Distinct [] = Unit
  Distinct (name ∷ names) = All (λ other. number_of name ≢ number_of other) names × Distinct names

  two_numbers :
      (f : NextFile) (names : List Bytes)
      → Summary w f names
      → Distinct names
      → at_least 2 f.count ≡ true
      → ¬ (f.last ≤ℤ f.first)
  two_numbers f [] h d two = λ _. few f.count 0 h.count (omega arith) two
  two_numbers f (a ∷ []) h d two = λ _. few f.count 1 h.count (omega arith) two
  two_numbers f (a ∷ b ∷ names) h d two = λ k.
      d.0.0 (squeezed f.first f.last _ _ h.first-le.0 h.le-last.0 h.first-le.1.0 h.le-last.1.0 k)

  -- If SendNext decides to send while the logger runs and its directory is the only one, the
  -- structure describes its data files, and their numbers differ, then the file to send is not the
  -- one with the highest number.
  pub sending-lt-last :
      (logger_state : ℤ) (tr : TrInfo) (names : List Bytes)
      → decide_next logger_state tr ≡ sending
      → is_pos logger_state 0 ≡ false
      → tr.d.count ≡ pos 1
      → Summary w tr.f names
      → Distinct names
      → ¬ (tr.f.last ≤ℤ tr.f.first)
  sending-lt-last logger_state tr names h busy one summary distinct =
      two_numbers tr.f names summary distinct (sending-needs_two logger_state tr h busy one)
