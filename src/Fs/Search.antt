-- ===== src/Fs/Search.antt =====
-- The loop of `search_file` of fs/misc.c over the entries of a block.
use minx.Prelude.{
  ℕ, zero, suc, ◌+◌, ◌*◌, ◌≤◌, ◌<◌, ◌≡◌, inl, inr, refl, sym, ap, ◌∙◌, Bool, true, false, ltb,
  arith, Bool-cases, List,
}
use minx.Const.{dir_entry_size}
use minx.Fs.State.{read32}
use minx.Fs.Dir.{name_from, has_name, Search, search_block}
use minx.Fs.Scan.{NoneBefore, NoneBefore-extend}

-- What a round over the entries from `m` up to `last` finds, among those up to number `nr`.
pub data Looked (named : ℕ → Bool) (num : ℕ → ℕ) (nr m last : ℕ) : Search → Type 0 where
  hit :
      {r n : ℕ}
      → r < last
      → r ≤ nr
      → named r ≡ true
      → NoneBefore named m r
      → n ≡ num r
      → Looked named num nr m last (Search.found n)
  gone : nr < last → NoneBefore named m (nr + 1) → Looked named num nr m last Search.past
  on :
      {m' : ℕ}
      → m' ≡ last
      → last ≤ nr
      → NoneBefore named m last
      → Looked named num nr m last (Search.more m')

pub search_block-Looked :
    (left off m last nr : ℕ) (buf : ℕ → ℕ) (name : List ℕ) (named : ℕ → Bool) (num : ℕ → ℕ)
    → m + left ≡ last
    → m ≤ nr
    → ((j : ℕ) → j < left → has_name buf (off + dir_entry_size * j) name ≡ named (m + j))
    → ((j : ℕ) → j < left → read32 buf (off + dir_entry_size * j) ≡ num (m + j))
    → Looked named num nr m last (search_block left buf name nr off m)
unfolding search_block
search_block-Looked zero off m last nr buf name named num e l names nums =
    on (omega (arith, e)) (omega (arith, e, l)) (λ i a b. absurd (omega (arith, a, b, e)))
search_block-Looked (suc left) off m last nr buf name named num e l names nums =
    let here : has_name buf off name ≡ named m =
      ap (λ o. has_name buf o name) (omega arith)
      ∙ names 0 (omega arith)
      ∙ ap named (omega arith) in
    let number : read32 buf off ≡ num m =
      ap (read32 buf) (omega arith) ∙ nums 0 (omega arith) ∙ ap num (omega arith) in
    elim (Bool-cases (has_name buf off name)) [
      | inl match ↦ rw match (
          hit (omega (arith, e)) l (sym here ∙ match) (λ i a b. absurd (omega (arith, a, b)))
            number)
      | inr differ ↦ elim (Bool-cases (ltb nr (m + 1))) [
        | inl ends ↦
            let at_end : m ≡ nr = ground (arith, ends, l) in
            rw (differ, ends)
              (gone (omega (arith, at_end, e)) (
                NoneBefore-extend named m (nr + 1) (sym here ∙ differ)
                  (λ i a b. absurd (omega (arith, a, b, at_end)))))
        | inr goes ↦
            rw (differ, goes)
              (step (sym here ∙ differ) (
                search_block-Looked left (off + dir_entry_size) (m + 1) last nr buf name named num
                  (omega (arith, e)) (ground (arith, goes))
                  (λ j lj.
                    ap (λ o. has_name buf o name) (omega arith)
                    ∙ names (j + 1) (omega (arith, lj))
                    ∙ ap named (omega arith))
                  (λ j lj.
                    ap (read32 buf) (omega arith)
                    ∙ nums (j + 1) (omega (arith, lj))
                    ∙ ap num (omega arith))))
      ]
    ]
  where
    step :
        {x : Search}
        → named m ≡ false
        → Looked named num nr (m + 1) last x
        → Looked named num nr m last x
    step differ (hit a b t h n) = hit a b t (NoneBefore-extend named m _ differ h) n
    step differ (gone a h) = gone a (NoneBefore-extend named m (nr + 1) differ h)
    step differ (on a b h) = on a b (NoneBefore-extend named m last differ h)

pub name_from-same :
    (n off off' k : ℕ) (b b' : ℕ → ℕ) (name : List ℕ)
    → ((i : ℕ) → i < k + n → b (off + i) ≡ b' (off' + i))
    → name_from n b off name k ≡ name_from n b' off' name k
unfolding name_from
name_from-same zero off off' k b b' name h = refl
name_from-same (suc n) off off' k b b' name h =
    rw
      (
        h k (omega arith),
        name_from-same n off off' (k + 1) b b' name (λ i l. h i (omega (arith, l))),
      )
      refl
