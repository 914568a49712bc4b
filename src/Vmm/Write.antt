-- ===== src/Vmm/Write.antt =====
-- Writing a page-table entry, the part that `vmm_map_page` and `vmm_unmap_page` of
-- src/kernel/mm/vmm.c share.
use my_microkernel.Prelude.{
  ℕ, ◌/◌, ◌^◌, ◌<◌, ◌≡◌, ◌≢◌, refl, sym, ap, ◌∙◌, arith, Bool, true, false, ◌==◌, if◌then◌else◌,
  bit_or, update, ℕ_discrete, Bool-cases, inl, inr, update_self, update_ne, ◌∷◌,
}
use my_microkernel.Vmm.{Services, Vmm, frame_of, has, present, user, pd_index, pt_index, flush}
use my_microkernel.Vmm.Entries.{has-present, pd_index-div, pt_index-div, frame_of-div, user-keeps}
use my_microkernel.Vmm.Tables.{entry, IsValid, same_page, true≢false}

-- The directory after the user flag is added where the flags ask for it.
abbrev pub with_user : (ℕ → ℕ) → (i flags : ℕ) → ℕ → ℕ
with_user pd i flags = if has flags user then update pd i (bit_or (pd i) user) else pd

-- It is as present as before, and has the same frames.
with_user-keeps :
    (pd : ℕ → ℕ) (i flags j : ℕ)
    → ((l : ℕ) → pd l < 2 ^ 32)
    → let pd1 = with_user pd i flags in
      (pd1 j < 2 ^ 32)
      × (has (pd1 j) present ≡ has (pd j) present)
      × (frame_of (pd1 j) ≡ frame_of (pd j))
with_user-keeps pd i flags j h = elim (Bool-cases (has flags user)) [
  | inr no_user ↦ rw no_user (h j, refl, refl)
  | inl is_user ↦ rw is_user (elim (ℕ_discrete i j) [
    | no ne ↦ rw (update_ne pd i j (bit_or (pd i) user) ne) (h j, refl, refl)
    | yes e ↦
        let (p, q) = user-keeps (pd i) in
        let b : bit_or (pd i) user < 2 ^ 32 = omega (arith, q, h i) in
        rw (← e, update_self pd i (bit_or (pd i) user))
          (
            b,
            rw (has-present (bit_or (pd i) user), has-present (pd i), p) refl,
            omega (arith, frame_of-div (bit_or (pd i) user) b, frame_of-div (pd i) (h i), q),
          )
  ])
]

pub pd_same : (v w : ℕ) → v / 4096 ≡ w / 4096 → pd_index v ≡ pd_index w
pd_same v w h =
    let a : v / 4194304 ≡ w / 4194304 = omega arith in rw (pd_index-div v, pd_index-div w, a) refl

pt_same : (v w : ℕ) → v / 4096 ≡ w / 4096 → pt_index v ≡ pt_index w
pt_same v w h = rw (pt_index-div v, pt_index-div w, h) refl

pub test_ne : (a b : ℕ) → a ≢ b → (a == b) ≡ false
test_ne a b h = ground arith

pub test_eq : (a b : ℕ) → a ≡ b → (a == b) ≡ true
test_eq a b h = ground arith

module _ {S : Type 0} where
  -- The state that `write_pte` leaves, before the flush.
  abbrev pub written : Vmm S → (table virt pte flags : ℕ) → Vmm S
  written s t virt pte flags = record s {
    pd = with_user s.pd (pd_index virt) flags;
    frames = update s.frames t (update (s.frames t) (pt_index virt) pte);
  }

  pub written-IsValid :
      (s : Vmm S) (t virt pte flags : ℕ) → IsValid s → IsValid (written s t virt pte flags)
  written-IsValid s t virt pte flags v =
      let keeps = λ (i : ℕ). with_user-keeps s.pd (pd_index virt) flags i v.words in
      record {
        words = λ i. (keeps i).0;
        apart = λ i j x y z.
            v.apart i j (sym (keeps i).1 ∙ x) (sym (keeps j).1 ∙ y)
              (sym (keeps i).2 ∙ z ∙ (keeps j).2);
      }

  -- Writing one word of a table in use changes the entry of one page.
  write_word :
      (s : Vmm S) (virt pte w : ℕ)
      → IsValid s
      → virt < 2 ^ 32
      → w < 2 ^ 32
      → has (s.pd (pd_index virt)) present ≡ true
      → has (s.pd (pd_index w)) present ≡ true
      → let t = frame_of (s.pd (pd_index virt)) in
        update s.frames t
          (update (s.frames t) (pt_index virt) pte)
          (frame_of (s.pd (pd_index w)))
          (pt_index w)
        ≡ (if virt / 4096 == w / 4096
            then pte
            else s.frames (frame_of (s.pd (pd_index w))) (pt_index w))
  write_word s virt pte w v a b p q =
      let t = frame_of (s.pd (pd_index virt)) in
      let u = frame_of (s.pd (pd_index w)) in
      elim (ℕ_discrete t u) [
        | no ne ↦
            rw
              (
                update_ne s.frames t u (update (s.frames t) (pt_index virt) pte) ne,
                test_ne (virt / 4096) (w / 4096)
                    (λ h. ne (ap (λ (i : ℕ). frame_of (s.pd i)) (pd_same virt w h))),
              )
              refl
        | yes e ↦
            let same = v.apart (pd_index virt) (pd_index w) p q e in
            rw (← e, update_self s.frames t (update (s.frames t) (pt_index virt) pte))
              (elim (ℕ_discrete (pt_index virt) (pt_index w)) [
                | yes f ↦
                    rw
                      (
                        ← f,
                        update_self (s.frames t) (pt_index virt) pte,
                        test_eq (virt / 4096) (w / 4096) (same_page virt w a b same f),
                      )
                      refl
                | no nf ↦
                    rw
                      (
                        update_ne (s.frames t) (pt_index virt) (pt_index w) pte nf,
                        test_ne (virt / 4096) (w / 4096) (λ h. nf (pt_same virt w h)),
                      )
                      refl
              ])
      ]

  pub written-entry :
      (s : Vmm S) (virt pte flags : ℕ)
      → IsValid s
      → has (s.pd (pd_index virt)) present ≡ true
      → virt < 2 ^ 32
      → (w : ℕ) → w < 2 ^ 32
      → entry (written s (frame_of (s.pd (pd_index virt))) virt pte flags) w
        ≡ (if virt / 4096 == w / 4096 then pte else entry s w)
  unfolding entry
  written-entry s virt pte flags v there a w b =
      let (c, d, e) = with_user-keeps s.pd (pd_index virt) flags (pd_index w) v.words in
      rw (d, e)
        (elim (Bool-cases (has (s.pd (pd_index w)) present)) [
          | inl h ↦ rw h (write_word s virt pte w v a b there h)
          | inr h ↦
              rw
                (
                  h,
                  test_ne (virt / 4096) (w / 4096) (λ q.
                      true≢false (has (s.pd (pd_index virt)) present) there
                        (ap (λ (i : ℕ). has (s.pd i) present) (pd_same virt w q) ∙ h)),
                )
                refl
        ])

module _ {S : Type 0} (k : Services S) where
  pub flush-entry : (s : Vmm S) (virt w : ℕ) → entry (flush k s virt) w ≡ entry s w
  unfolding flush entry
  flush-entry s virt w = ground arith

  pub flush-IsValid : (s : Vmm S) (virt : ℕ) → IsValid s → IsValid (flush k s virt)
  unfolding flush
  flush-IsValid s virt v =
      elim s.ready
        as (λ (b : Bool). IsValid (if b then record s { flushed = virt ∷ s.flushed } else s)) [
          | true ↦ record { words = v.words; apart = v.apart }
          | false ↦ v
        ]

  pub flush-ready : (s : Vmm S) (virt : ℕ) → (flush k s virt).ready ≡ s.ready
  unfolding flush
  flush-ready s virt = ground arith
