-- ===== src/Vmm/Tables.antt =====
-- The page-table entry of an address, and `vmm_ensure_page_table` of src/kernel/mm/vmm.c.
use my_microkernel.Prelude.{
  ℕ, ◌+◌, ◌/◌, ◌%◌, ◌^◌, ◌<◌, ◌≡◌, ◌≢◌, refl, sym, ap, ◌∙◌, or_step, or-zero, arith, Bool, true,
  false, ◌==◌, if◌then◌else◌, bit_or, update, Option, none, some, ℕ_discrete, Bool-cases, inl, inr,
  update_self, update_ne,
}
use my_microkernel.Vmm.{
  Services, Vmm, frame_of, has, present, writable, pd_index, pt_index, new_table, ensure_page_table,
  zero_page,
}
use my_microkernel.Vmm.Entries.{
  has-present, pd_index-div, pt_index-div, frame_of-div, entry_fields, shift-or,
}

-- The page-table entry of an address, 0 where there is no table.
unfoldable pub entry : {S : Type 0} → Vmm S → ℕ → ℕ
entry s v =
    let pde = s.pd (pd_index v) in
    if has pde present then s.frames (frame_of pde) (pt_index v) else 0

-- The directory holds words, and no two tables share a frame.
pub record IsValid {S : Type 0} (s : Vmm S) : Type 0 where
  pub words : (i : ℕ) → s.pd i < 2 ^ 32
  pub apart :
      (i j : ℕ)
      → has (s.pd i) present ≡ true
      → has (s.pd j) present ≡ true
      → frame_of (s.pd i) ≡ frame_of (s.pd j)
      → i ≡ j

-- What the mapping needs of a page that the allocator hands out: an aligned 32-bit address that is
-- not the frame of a table in use.
pub record IsFresh {S : Type 0} (s : Vmm S) (p : ℕ) : Type 0 where
  pub aligned : p % 4096 ≡ 0
  pub word : p < 2 ^ 32
  pub unused : (i : ℕ) → has (s.pd i) present ≡ true → frame_of (s.pd i) ≢ p

-- The directory entry `i` holds the table `t`, and the pages' entries are those of `s`.
pub record Ensured {S : Type 0} (s : Vmm S) (i t : ℕ) (s1 : Vmm S) : Type 0 where
  pub valid : IsValid s1
  pub there : has (s1.pd i) present ≡ true
  pub frame : frame_of (s1.pd i) ≡ t
  pub ready : s1.ready ≡ s.ready
  pub same : (w : ℕ) → entry s1 w ≡ entry s w

pub same_page :
    (v w : ℕ)
    → v < 2 ^ 32
    → w < 2 ^ 32
    → pd_index v ≡ pd_index w
    → pt_index v ≡ pt_index w
    → v / 4096 ≡ w / 4096
same_page v w a b p q =
    omega (arith, pd_index-div v, pd_index-div w, pt_index-div v, pt_index-div w)

-- The directory entry that `vmm_ensure_page_table` writes.
table_entry : (p : ℕ) → p % 4096 ≡ 0 → p < 2 ^ 32 → bit_or (bit_or p present) writable ≡ p + 3
table_entry p a b =
    let e : bit_or p 1 ≡ p + 1 = entry_fields p 1 a (omega arith) in
    let h : bit_or (p + 1) 2 ≡ p + 3 = omega (
      arith,
      shift-or (p + 1) 2,
      or_step (p + 1) 2,
      or_step ((p + 1) / 2) 1,
      or-zero ((p + 1) / 2 / 2),
    ) in
    ap (λ (t : ℕ). bit_or t 2) e ∙ h

table_entry-has : (p : ℕ) → p % 4096 ≡ 0 → has (p + 3) present ≡ true
table_entry-has p a = ground (arith, has-present (p + 3))

table_entry-frame : (p : ℕ) → p % 4096 ≡ 0 → p < 2 ^ 32 → frame_of (p + 3) ≡ p
table_entry-frame p a b = omega (arith, frame_of-div (p + 3) (omega arith))

pub true≢false : (b : Bool) → b ≡ true → b ≢ false
true≢false b p q = ground arith

module _ {S : Type 0} (k : Services S) where
  -- The state after a new table at the frame `p`.
  abbrev with_table : Vmm S → ℕ → S → ℕ → Vmm S
  with_table s i rest p = record s {
    rest = rest;
    frames = update s.frames p zero_page;
    pd = update s.pd i (p + 3);
  }

  with_table-apart :
      (s : Vmm S) (i : ℕ) (rest : S) (p : ℕ)
      → IsValid s
      → IsFresh s p
      → (a b : ℕ) → has (update s.pd i (p + 3) a) present ≡ true
      → has (update s.pd i (p + 3) b) present ≡ true
      → frame_of (update s.pd i (p + 3) a) ≡ frame_of (update s.pd i (p + 3) b)
      → a ≡ b
  with_table-apart s i rest p v f a b =
      let fr = table_entry-frame p f.aligned f.word in
      elim (ℕ_discrete i a) [
        | yes ia ↦ elim (ℕ_discrete i b) [
          | yes ib ↦ λ x y z. sym ia ∙ ib
          | no nb ↦
              rw (← ia, update_self s.pd i (p + 3), update_ne s.pd i b (p + 3) nb, fr)
                (λ x y z. absurd (f.unused b y (sym z)))
        ]
        | no na ↦ elim (ℕ_discrete i b) [
          | yes ib ↦
              rw (← ib, update_self s.pd i (p + 3), update_ne s.pd i a (p + 3) na, fr)
                (λ x y z. absurd (f.unused a x z))
          | no nb ↦ rw (update_ne s.pd i a (p + 3) na, update_ne s.pd i b (p + 3) nb) (v.apart a b)
        ]
      ]

  with_table-entry :
      (s : Vmm S) (i : ℕ) (rest : S) (p : ℕ)
      → IsFresh s p
      → has (s.pd i) present ≡ false
      → (w : ℕ) → entry (with_table s i rest p) w ≡ entry s w
  unfolding entry
  with_table-entry s i rest p f absent w = elim (ℕ_discrete i (pd_index w)) [
    | yes e ↦
        rw
          (
            ← e,
            absent,
            update_self s.pd i (p + 3),
            table_entry-has p f.aligned,
            table_entry-frame p f.aligned f.word,
            update_self s.frames p zero_page,
          )
          refl
    | no ne ↦
        rw (update_ne s.pd i (pd_index w) (p + 3) ne)
          (elim (Bool-cases (has (s.pd (pd_index w)) present)) [
            | inl h ↦
                rw
                  (
                    h,
                    update_ne s.frames p (frame_of (s.pd (pd_index w))) zero_page
                        (λ q. f.unused (pd_index w) h (sym q)),
                  )
                  refl
            | inr h ↦ rw h refl
          ])
  ]

  Ensured-new :
      (s : Vmm S) (i : ℕ) (rest : S) (p : ℕ)
      → IsValid s
      → IsFresh s p
      → has (s.pd i) present ≡ false
      → Ensured s i p (with_table s i rest p)
  Ensured-new s i rest p v f absent = record {
    valid = record {
      words = λ j. ground (arith, v.words j, f.word, f.aligned);
      apart = with_table-apart s i rest p v f;
    };
    there = rw (update_self s.pd i (p + 3)) (table_entry-has p f.aligned);
    frame = rw (update_self s.pd i (p + 3)) (table_entry-frame p f.aligned f.word);
    ready = refl;
    same = with_table-entry s i rest p f absent;
  }

  -- What `vmm_ensure_page_table` returns, if it returns a table.
  abbrev pub IsEnsured : Vmm S → ℕ → Vmm S × Option ℕ → Type 0
  IsEnsured s i (s1, none) = Unit
  IsEnsured s i (s1, some t) = Ensured s i t s1

  new_table-IsEnsured :
      (s : Vmm S) (i : ℕ) (a : S × ℕ)
      → IsValid s
      → IsFresh s a.1
      → has (s.pd i) present ≡ false
      → IsEnsured s i (new_table k s i a)
  unfolding new_table
  new_table-IsEnsured s i (rest, p) v f absent = elim (Bool-cases (p == 0)) [
    | inl z ↦ rw z tt
    | inr nz ↦ rw (nz, table_entry p f.aligned f.word) (Ensured-new s i rest p v f absent)
  ]

  pub ensure-IsEnsured :
      (s : Vmm S) (i : ℕ)
      → IsValid s
      → IsFresh s (k.pmm_alloc_page s.rest).1
      → IsEnsured s i (ensure_page_table k s i)
  unfolding ensure_page_table
  ensure-IsEnsured s i v f = elim (Bool-cases (has (s.pd i) present)) [
    | inl h ↦ rw h (record { valid = v; there = h; frame = refl; ready = refl; same = λ w. refl })
    | inr h ↦ rw h (new_table-IsEnsured s i (k.pmm_alloc_page s.rest) v f h)
  ]
