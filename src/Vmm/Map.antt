-- ===== src/Vmm/Map.antt =====
-- `vmm_map_page`, `vmm_unmap_page` and the queries, against the entry that the tables hold for each
-- page.
use my_microkernel.Prelude.{
  ℕ, zero, suc, ◌+◌, ◌/◌, ◌%◌, ◌^◌, ◌<◌, ◌≡◌, ◌≢◌, refl, sym, ap, ◌∙◌, arith, Bool, true, false,
  not, ◌&&◌, ◌||◌, ◌==◌, if◌then◌else◌, bit_or, Option, none, some, Status, ok, fail, ℕ_discrete,
  Bool-cases, inl, inr, ◌⊎◌, ◌↔◌,
}
use my_microkernel.Vmm.{
  Services, Vmm, frame_of, low_bits, has, present, pd_index, new_table, ensure_page_table, flush,
  write_pte, map_in, map_page, unmap_page, get_physical,
}
use my_microkernel.Vmm.Entries.{low_bits-mod, has-present, frame_of-div, entry_fields}
use my_microkernel.Vmm.Tables.{entry, IsValid, IsFresh, IsEnsured, ensure-IsEnsured}
use my_microkernel.Vmm.Write.{
  written, written-IsValid, written-entry, flush-entry, flush-IsValid, flush-ready, test_ne,
  test_eq, pd_same,
}

-- The queries by the entry: the frame of an aligned page whose entry is present.
abbrev frame_at : Bool → ℕ → ℕ → Option ℕ
frame_at ready e v = if ready && (low_bits v == 0) && has e present then some (frame_of e) else none

-- `map_page` succeeded: the tables stay valid, and the page of `virt` has the new entry.
record Mapped {S : Type 0} (s : Vmm S) (virt phys flags : ℕ) (s1 : Vmm S) : Type 0 where
  valid : IsValid s1
  ready : s1.ready ≡ s.ready
  drawn :
      (w : ℕ)
      → w < 2 ^ 32
      → entry s1 w
        ≡ (if virt / 4096 == w / 4096 then bit_or (frame_of phys) (low_bits flags) else entry s w)

module _ {S : Type 0} (k : Services S) where
  get_physical-entry : (s : Vmm S) (v : ℕ) → get_physical k s v ≡ frame_at s.ready (entry s v) v
  unfolding get_physical entry
  get_physical-entry s v = ground arith

  IsMapped : Vmm S → (virt phys flags : ℕ) → Vmm S × Status → Type 0
  IsMapped s virt phys flags (s1, ok) = Mapped s virt phys flags s1
  IsMapped s virt phys flags (s1, fail) = Unit

  map_in-IsMapped :
      (s : Vmm S) (virt phys flags : ℕ) (r : Vmm S × Option ℕ)
      → virt < 2 ^ 32
      → IsEnsured k s (pd_index virt) r
      → IsMapped s virt phys flags (map_in k virt phys flags r)
  unfolding map_in write_pte IsMapped
  map_in-IsMapped s virt phys flags (s1, none) h e = tt
  map_in-IsMapped s virt phys flags (s1, some t) h e =
      let pte = bit_or (frame_of phys) (low_bits flags) in
      rw (← e.frame) (
        let t1 = frame_of (s1.pd (pd_index virt)) in
        record {
          valid =
              flush-IsValid k (written s1 t1 virt pte flags) virt
                (written-IsValid s1 t1 virt pte flags e.valid);
          ready = flush-ready k (written s1 t1 virt pte flags) virt ∙ e.ready;
          drawn = λ w b.
              rw
                (
                  flush-entry k (written s1 t1 virt pte flags) virt w,
                  written-entry s1 virt pte flags e.valid e.there h w b,
                  e.same w,
                )
                refl;
        })

  map_page-IsMapped :
      (s : Vmm S) (virt phys flags : ℕ)
      → IsValid s
      → IsFresh s (k.pmm_alloc_page s.rest).1
      → virt < 2 ^ 32
      → IsMapped s virt phys flags (map_page k s virt phys flags)
  unfolding map_page IsMapped
  map_page-IsMapped s virt phys flags v f h =
      elim (Bool-cases (not (low_bits virt == 0) || not (low_bits phys == 0))) [
        | inl bad ↦ rw bad tt
        | inr good ↦ rw good (
            map_in-IsMapped s virt phys flags (ensure_page_table k s (pd_index virt)) h
              (ensure-IsEnsured k s (pd_index virt) v f))
      ]

  new_table-ok :
      (s : Vmm S) (virt phys flags i : ℕ) (a : S × ℕ)
      → ((map_in k virt phys flags (new_table k s i a)).1 ≡ ok) ↔ (a.1 ≢ 0)
  unfolding map_in new_table
  new_table-ok s virt phys flags i (rest, zero) = ground arith
  new_table-ok s virt phys flags i (rest, suc p) = ground arith

  ensured_ok :
      (s : Vmm S) (virt phys flags i : ℕ)
      → ((map_in k virt phys flags (ensure_page_table k s i)).1 ≡ ok)
        ↔ ((has (s.pd i) present ≡ true) ⊎ ((k.pmm_alloc_page s.rest).1 ≢ 0))
  unfolding ensure_page_table
  ensured_ok s virt phys flags i =
      let n = new_table-ok s virt phys flags i (k.pmm_alloc_page s.rest) in
      elim (Bool-cases (has (s.pd i) present)) [
        | inl h ↦ rw h (unfold map_in in (λ p. inl refl, λ p. refl))
        | inr h ↦
            rw h (λ p. inr (n.0 p), λ p. elim p [ inl q ↦ absurd (ground arith) | inr q ↦ n.1 q ])
      ]

  -- `vmm_map_page` returns 0 exactly if both addresses are page-aligned and there is a page table for
  -- `virt` already or the page allocator has a page for one.
  pub map_page-ok_iff :
      (s : Vmm S) (virt phys flags : ℕ)
      → ((map_page k s virt phys flags).1 ≡ ok) ↔ (
          (low_bits virt ≡ 0)
          × (low_bits phys ≡ 0)
          × ((has (s.pd (pd_index virt)) present ≡ true) ⊎ ((k.pmm_alloc_page s.rest).1 ≢ 0)))
  unfolding map_page
  map_page-ok_iff s virt phys flags =
      let (f, g) = ensured_ok s virt phys flags (pd_index virt) in
      elim (Bool-cases (not (low_bits virt == 0) || not (low_bits phys == 0))) [
        | inl bad ↦ rw bad (λ p. absurd (ground arith), λ (p, q, r). absurd (ground arith))
        | inr good ↦ rw good (λ p. (ground arith, ground arith, f p), λ (p, q, r). g r)
      ]

  ok-Mapped :
      (s : Vmm S) (virt phys flags : ℕ) (r : Vmm S × Status)
      → IsMapped s virt phys flags r
      → r.1 ≡ ok
      → Mapped s virt phys flags r.0
  unfolding IsMapped
  ok-Mapped s virt phys flags (s1, ok) m h = m
  ok-Mapped s virt phys flags (s1, fail) m h = absurd (ground arith)

  new_frame :
      (phys flags w : ℕ)
      → phys < 2 ^ 32
      → low_bits phys ≡ 0
      → flags % 2 ≡ 1
      → w % 4096 ≡ 0
      → frame_at true (bit_or (frame_of phys) (low_bits flags)) w ≡ some phys
  new_frame phys flags w b al fl d =
      let e : frame_of phys ≡ phys = omega (arith, frame_of-div phys b, low_bits-mod phys) in
      let n : bit_or phys (low_bits flags) ≡ phys + flags % 4096 =
        rw (low_bits-mod flags)
          (entry_fields phys (flags % 4096) (omega (arith, low_bits-mod phys)) (omega arith)) in
      let fr : frame_of (phys + flags % 4096) ≡ phys = omega (
        arith,
        low_bits-mod phys,
        frame_of-div (phys + flags % 4096) (omega (arith, low_bits-mod phys)),
      ) in
      let pr : has (phys + flags % 4096) present ≡ true =
        rw (has-present (phys + flags % 4096)) (ground (arith, low_bits-mod phys)) in
      let lw : (low_bits w == 0) ≡ true = ground (arith, low_bits-mod w) in
      rw (e, n, pr, lw, fr) refl

  no_frame : (w : ℕ) → frame_at true 0 w ≡ none
  no_frame w = ground (arith, has-present 0)

  page_ne : (v w : ℕ) → v % 4096 ≡ 0 → w % 4096 ≡ 0 → v ≢ w → v / 4096 ≢ w / 4096
  page_ne v w a b h p = h (omega arith)

  redrawn :
      (r0 r1 : Bool) (e0 e1 new v w : ℕ) (answer : Option ℕ)
      → r0 ≡ true
      → r1 ≡ r0
      → e1 ≡ (if v / 4096 == w / 4096 then new else e0)
      → v % 4096 ≡ 0
      → w % 4096 ≡ 0
      → frame_at true new w ≡ answer
      → frame_at r1 e1 w ≡ (if v == w then answer else frame_at r0 e0 w)
  redrawn r0 r1 e0 e1 new v w answer a b e p q h = elim (ℕ_discrete v w) [
    | yes f ↦
        rw (b, a, e, test_eq v w f, test_eq (v / 4096) (w / 4096) (ap (λ (t : ℕ). t / 4096) f)) h
    | no nf ↦ rw (b, a, e, test_ne v w nf, test_ne (v / 4096) (w / 4096) (page_ne v w p q nf)) refl
  ]

  -- In a running manager whose tables are valid, after `vmm_map_page` has returned 0 with the present
  -- flag, `vmm_get_physical` answers `phys` for the page at `virt`, and answers as before for every
  -- other page. The allocator's next page is aligned and is not in use as a table.
  pub map_page-get_physical :
      (s : Vmm S) (virt phys flags : ℕ)
      → IsValid s
      → IsFresh s (k.pmm_alloc_page s.rest).1
      → s.ready ≡ true
      → virt < 2 ^ 32
      → phys < 2 ^ 32
      → flags % 2 ≡ 1
      → (map_page k s virt phys flags).1 ≡ ok
      → (w : ℕ) → w < 2 ^ 32
      → w % 4096 ≡ 0
      → get_physical k (map_page k s virt phys flags).0 w
        ≡ (if virt == w then some phys else get_physical k s w)
  map_page-get_physical s virt phys flags v f ready a b fl good w c d =
      let r = map_page k s virt phys flags in
      let m = ok-Mapped s virt phys flags r (map_page-IsMapped s virt phys flags v f a) good in
      let (p, q, o) = (map_page-ok_iff s virt phys flags).0 good in
      get_physical-entry r.0 w
      ∙ redrawn s.ready r.0.ready (entry s w) (entry r.0 w)
          (bit_or (frame_of phys) (low_bits flags)) virt w (some phys) ready m.ready (m.drawn w c)
          (omega (arith, low_bits-mod virt)) d (new_frame phys flags w b q fl d)
      ∙ ap (λ (o : Option ℕ). if virt == w then some phys else o) (sym (get_physical-entry s w))

  unmap_present :
      (s : Vmm S) (virt : ℕ)
      → virt % 4096 ≡ 0
      → has (s.pd (pd_index virt)) present ≡ true
      → unmap_page k s virt ≡ flush k (written s (frame_of (s.pd (pd_index virt))) virt 0 0) virt
  unfolding unmap_page
  unmap_present s virt al h =
      let low : (low_bits virt == 0) ≡ true = ground (arith, low_bits-mod virt) in rw (low, h) refl

  unmap_absent :
      (s : Vmm S) (virt : ℕ) → has (s.pd (pd_index virt)) present ≡ false → unmap_page k s virt ≡ s
  unfolding unmap_page
  unmap_absent s virt h = ground arith

  unmapped-entry :
      (s : Vmm S) (virt : ℕ)
      → IsValid s
      → virt < 2 ^ 32
      → virt % 4096 ≡ 0
      → (w : ℕ) → w < 2 ^ 32
      → entry (unmap_page k s virt) w ≡ (if virt / 4096 == w / 4096 then 0 else entry s w)
  unmapped-entry s virt v a al w c = elim (Bool-cases (has (s.pd (pd_index virt)) present)) [
    | inl h ↦
        rw
          (
            unmap_present s virt al h,
            flush-entry k (written s (frame_of (s.pd (pd_index virt))) virt 0 0) virt w,
            written-entry s virt 0 0 v h a w c,
          )
          refl
    | inr h ↦ rw (unmap_absent s virt h) (elim (ℕ_discrete (virt / 4096) (w / 4096)) [
      | yes e ↦
          rw (test_eq (virt / 4096) (w / 4096) e)
            (absent_entry s w (ap (λ (i : ℕ). has (s.pd i) present) (sym (pd_same virt w e)) ∙ h))
      | no ne ↦ rw (test_ne (virt / 4096) (w / 4096) ne) refl
    ])
  ]
    where
      absent_entry : (s : Vmm S) (w : ℕ) → has (s.pd (pd_index w)) present ≡ false → entry s w ≡ 0
      absent_entry s w h = unfold entry in (rw h refl)

  unmap_page-ready : (s : Vmm S) (virt : ℕ) → (unmap_page k s virt).ready ≡ s.ready
  unfolding unmap_page flush
  unmap_page-ready s virt = ground arith

  -- In a running manager whose tables are valid, after `vmm_unmap_page` of a page, `vmm_get_physical`
  -- fails for this page and answers as before for every other page.
  pub unmap_page-get_physical :
      (s : Vmm S) (virt : ℕ)
      → IsValid s
      → s.ready ≡ true
      → virt < 2 ^ 32
      → virt % 4096 ≡ 0
      → (w : ℕ) → w < 2 ^ 32
      → w % 4096 ≡ 0
      → get_physical k (unmap_page k s virt) w ≡ (if virt == w then none else get_physical k s w)
  unmap_page-get_physical s virt v ready a al w c d =
      let s1 = unmap_page k s virt in
      get_physical-entry s1 w
      ∙ redrawn s.ready s1.ready (entry s w) (entry s1 w) 0 virt w none ready
          (unmap_page-ready s virt) (unmapped-entry s virt v a al w c) al d (no_frame w)
      ∙ ap (λ (o : Option ℕ). if virt == w then none else o) (sym (get_physical-entry s w))
