-- ===== src/Fs/Unique.antt =====
-- No i-node is in two slots: `get_inode` and `put_inode` of fs/main.c keep the table so.
use minx.Prelude.{
  ℕ, ◌-◌, ◌<◌, ◌≡◌, ◌≢◌, inl, inr, sym, ap, ◌∙◌, true, false, ◌==◌, ltb, update, update_self,
  update_ne, Option, ok, ok_of_check, arith, Bool-cases,
}
use minx.Const.{nr_inode}
use minx.Fs.State.{Inode, SuperBlock, Fs, get_super_block, has_driver}
use minx.Fs.Inode.{get_inode, put_inode}
use minx.Fs.Cache.{holds, Gets, again, fresh, IsLoaded, get_inode-Gets}

-- No two slots in use hold the same i-node of the same device.
pub record IsUnique (table : ℕ → Inode) : Type 0 where
  pub same_slot :
      (i j dev num : ℕ)
      → i < nr_inode
      → j < nr_inode
      → holds dev num (table i) ≡ true
      → holds dev num (table j) ≡ true
      → i ≡ j

-- A table that differs in one slot, which holds nothing that another slot holds.
changed-IsUnique :
    (t t' : ℕ → Inode) (p : ℕ)
    → IsUnique t
    → ((i : ℕ) → i ≢ p → t' i ≡ t i)
    → ((dev num i : ℕ)
        → i < nr_inode
        → i ≢ p
        → holds dev num (t' p) ≡ true
        → holds dev num (t i) ≡ false)
    → IsUnique t'
changed-IsUnique t t' p u others apart = record { same_slot = go }
  where
    clash :
        (dev num i : ℕ)
        → i < nr_inode
        → i ≢ p
        → holds dev num (t' p) ≡ true
        → holds dev num (t' i) ≡ true
        → i ≡ p
    clash dev num i l ne hp hi =
        let no_hold = apart dev num i l ne hp in
        let hold = ap (holds dev num) (sym (others i ne)) ∙ hi in cc

    go :
        (i j dev num : ℕ)
        → i < nr_inode
        → j < nr_inode
        → holds dev num (t' i) ≡ true
        → holds dev num (t' j) ≡ true
        → i ≡ j
    go i j dev num li lj hi hj = elim (Bool-cases (i == p)) [
      | inl ei ↦
          let same : i ≡ p = ground (arith, ei) in
          elim (Bool-cases (j == p)) [
            | inl ej ↦ ground (arith, ei, ej)
            | inr nj ↦
                same
                ∙ sym (
                    clash dev num j lj (ground (arith, nj))
                      (ap (λ x. holds dev num (t' x)) (sym same) ∙ hi) hj)
          ]
      | inr ni ↦
          let ne : i ≢ p = ground (arith, ni) in
          elim (Bool-cases (j == p)) [
            | inl ej ↦
                let same : j ≡ p = ground (arith, ej) in
                clash dev num i li ne (ap (λ x. holds dev num (t' x)) (sym same) ∙ hj) hi ∙ sym same
            | inr nj ↦
                u.same_slot i j dev num li lj (ap (holds dev num) (sym (others i ne)) ∙ hi)
                  (ap (holds dev num) (sym (others j (ground (arith, nj)))) ∙ hj)
          ]
    ]

-- Of what a slot holds, at most the count of uses changes; it was in use before.
recount-IsUnique :
    (t : ℕ → Inode) (p n : ℕ)
    → p < nr_inode
    → (t p).i_cnt ≢ 0
    → IsUnique t
    → IsUnique (update t p (record (t p) { i_cnt = n }))
recount-IsUnique t p n l used u =
    let v = record (t p) { i_cnt = n } in
    changed-IsUnique t (update t p v) p u (λ i ne. update_ne t p i v (λ e. ne (sym e)))
      (λ dev num i li ne h.
        let slot : holds dev num v ≡ true = ap (holds dev num) (sym (update_self t p v)) ∙ h in
        let before : holds dev num (t p) ≡ true = ground (arith, slot, used) in
        elim (Bool-cases (holds dev num (t i))) [
          | inl both ↦ absurd (ne (u.same_slot i p dev num li l both before))
          | inr apart ↦ apart
        ])

loaded-same :
    (dev num d n : ℕ) (sb : SuperBlock) (disk : ℕ → ℕ → ℕ) (v : Inode)
    → IsLoaded dev num sb disk v
    → holds d n v ≡ true
    → (dev ≡ d) × (num ≡ n)
loaded-same dev num d n sb disk v h e =
    let dev_of = h.i_dev in
    let num_of = h.i_num in (ground (arith, e, dev_of), ground (arith, e, num_of))

Gets-IsUnique :
    (dev num : ℕ) (sb : SuperBlock) (s : Fs) {pin : Option ℕ} {s' : Fs}
    → IsUnique s.inode_table
    → Gets dev num sb s (ok (pin, s'))
    → IsUnique s'.inode_table
Gets-IsUnique dev num sb s u (again {p = p} l h e) =
    rw e (recount-IsUnique s.inode_table p _ l (ground (arith, h)) u)
Gets-IsUnique dev num sb s {s' = s'} u (fresh {p = p} none_holds l cnt first load others disk) =
    changed-IsUnique s.inode_table s'.inode_table p u others (λ d n i li ne h.
      let (e, f) = loaded-same dev num d n sb s.disk (s'.inode_table p) load h in
      ap (λ x. holds x n (s.inode_table i)) (sym e)
      ∙ ap (λ x. holds dev x (s.inode_table i)) (sym f)
      ∙ none_holds i li)

-- If no i-node is in two slots before `get_inode` runs, for a number that is not 0 and a device with
-- a driver and a super block, none is in two slots in the state in which it returns.
pub get_inode-IsUnique :
    (dev num b : ℕ) (s : Fs) (pin : Option ℕ) (s' : Fs)
    → has_driver dev ≡ true
    → get_super_block dev s ≡ ok b
    → num ≢ 0
    → IsUnique s.inode_table
    → get_inode dev num s ≡ ok (pin, s')
    → IsUnique s'.inode_table
get_inode-IsUnique dev num b s pin s' driver found ne u run =
    Gets-IsUnique dev num (s.super_block b) s u
      (rw run at (get_inode-Gets dev num b s driver found ne))

-- If no i-node is in two slots before `put_inode` runs on a slot of the table, none is in two slots
-- in the state in which it returns.
pub put_inode-IsUnique :
    (p : ℕ) (s s' : Fs)
    → p < nr_inode
    → IsUnique s.inode_table
    → put_inode p s ≡ ok s'
    → IsUnique s'.inode_table
unfolding put_inode
put_inode-IsUnique p s s' l u run =
    let v = s.inode_table p in
    let (used, same) = ok_of_check (ltb 0 v.i_cnt) _ run in
    let here : record s { inode_table = update s.inode_table p (record v { i_cnt = v.i_cnt - 1 }) }
        ≡ s' =
      cc in
    rw (← here) (recount-IsUnique s.inode_table p (v.i_cnt - 1) l (ground (arith, used)) u)
