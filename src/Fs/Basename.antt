-- ===== src/Fs/Basename.antt =====
-- The file name of a path.
use minx.Prelude.{
  ℕ, zero, suc, ◌≡◌, refl, inl, inr, true, false, List, [], ◌∷◌, Option, none, some, arith, take,
  has, Bool-cases, ◌==◌, if◌then◌else◌,
}
use minx.Const.{max_filename_len}
use minx.Fs.{slash, strip_from, skip_slash, strip_path}

strip_from-take :
    (room : ℕ) (s : List ℕ)
    → strip_from room s ≡ (if has slash (take room s) then none else some (take room s))
unfolding strip_from
strip_from-take zero [] = refl
strip_from-take (suc room) [] = refl
strip_from-take zero (c ∷ s) = refl
strip_from-take (suc room) (c ∷ s) =
    next c (take room s) (strip_from room s) (strip_from-take room s)
  where
    next :
        (c : ℕ) (t : List ℕ) (rest : Option (List ℕ))
        → rest ≡ (if has slash t then none else some t)
        → (if c == slash then none else elim rest [ none ↦ none | some t ↦ some (c ∷ t) ])
          ≡ (if has slash (c ∷ t) then none else some (c ∷ t))
    next c t rest e = elim (Bool-cases (c == slash)) [
      | inl here ↦ let back : (slash == c) ≡ true = ground (arith, here) in rw (here, back) refl
      | inr there ↦
          let back : (slash == c) ≡ false = ground (arith, there) in
          elim (Bool-cases (has slash t)) [
            | inl inside ↦ rw (there, back, e, inside) refl
            | inr out ↦ rw (there, back, e, out) refl
          ]
    ]

-- `strip_path` takes off one slash at the start. Of what is left it gives the first 12 characters,
-- or fails if there is a slash among them.
pub strip_path-take :
    (p : List ℕ)
    → strip_path p ≡ (
        if has slash (take max_filename_len (skip_slash p))
        then none
        else some (take max_filename_len (skip_slash p)))
unfolding strip_path
strip_path-take p = strip_from-take max_filename_len (skip_slash p)
