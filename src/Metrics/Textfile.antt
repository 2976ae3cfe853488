-- ===== src/Metrics/Textfile.antt =====
-- The textfile is replaced as a whole (Metrics::write of src/metrics.cpp).
use obserwrt.Prelude.{
  ℕ, zero, suc, ◌≤◌, ◌<◌, ◌≡◌, refl, sym, ap, ◌∙◌, ◌⊎◌, inl, inr, Bool, true, false, Option, none,
  some, List, [], ◌∷◌, ◌++◌, arith, Bytes, length, take, drop, take-append-drop, length-drop,
  append_assoc, append-nil, Bool-cases,
}
use obserwrt.Metrics.{
  Metrics, BuildInfo, Files, FileCalls, write_loop, replace_file, write, exposition,
}

-- Each answer makes progress: an error, or at least one byte taken.
abbrev pub Progress : List (Option ℕ) → Type 0
Progress [] = Unit {0}
Progress (none ∷ answers) = Progress answers
Progress (some n ∷ answers) = (0 < n) × Progress answers

write_loop-all :
    (answers : List (Option ℕ)) (done text : Bytes)
    → Progress answers
    → length text ≤ length answers
    → (written : Bytes) × (complete : Bool) × (write_loop answers done text
        ≡ some (written, complete))
      × (complete ≡ true → written ≡ done ++ text)
unfolding write_loop
write_loop-all answers done [] pr enough = (done, true, refl, λ e. sym (append-nil done))
write_loop-all [] done (b ∷ rest) pr enough = absurd (omega arith)
write_loop-all (none ∷ answers) done (b ∷ rest) pr enough = (done, false, refl, λ e. cc)
write_loop-all (some zero ∷ answers) done (b ∷ rest) pr enough = absurd (omega arith)
write_loop-all (some (suc n) ∷ answers) done (b ∷ rest) pr enough =
    let (written, complete, e, all) =
      write_loop-all answers (done ++ take (suc n) (b ∷ rest)) (drop (suc n) (b ∷ rest)) pr.1
        (omega (arith, length-drop n rest)) in
    (
      written,
      complete,
      e,
      λ c.
          all c
          ∙ append_assoc done (take (suc n) (b ∷ rest)) (drop (suc n) (b ∷ rest))
          ∙ rw (take-append-drop n rest) refl,
    )

-- Writing returns, given that each write of the system makes progress. Afterwards the textfile holds
-- the whole exposition, or what it held before: an error, and a rename that fails, never leave a part
-- of it there. The temporary file is left over only if it could not be opened.
pub write-Textfile :
    (m : Metrics) (b : BuildInfo) (calls : FileCalls) (fs : Files)
    → Progress calls.writes
    → length (exposition m b) ≤ length calls.writes
    → (fs' : Files) × (write m b calls fs ≡ some fs')
      × ((fs'.target ≡ fs.target) ⊎ ((m.is_active ≡ true) × (fs'.target ≡ some (exposition m b))))
      × ((m.is_active ≡ true) → calls.opens ≡ true → fs'.tmp ≡ none)
unfolding write replace_file
write-Textfile m b calls fs pr enough =
    let (written, complete, e, all) = write_loop-all calls.writes [] (exposition m b) pr enough in
    elim (Bool-cases m.is_active) [
      | inr off ↦ (fs, ground (arith, off), inl refl, λ on. ground (arith, on, off))
      | inl on ↦ elim (Bool-cases calls.opens) [
        | inr shut ↦ (fs, ground (arith, on, shut), inl refl, λ h o. ground (arith, o, shut))
        | inl opens ↦ elim (Bool-cases complete) [
          | inr broken ↦ (
            record fs { tmp = none },
            ground (arith, on, opens, e, broken),
            inl refl,
            λ h o. refl,
          )
          | inl whole ↦ elim (Bool-cases calls.renames) [
            | inr stuck ↦ (
              record fs { tmp = none },
              ground (arith, on, opens, e, whole, stuck),
              inl refl,
              λ h o. refl,
            )
            | inl renamed ↦ (
              record { target = some written; tmp = none },
              ground (arith, on, opens, e, whole, renamed),
              inr (on, ap some (all whole)),
              λ h o. refl,
            )
          ]
        ]
      ]
    ]
