-- ===== src/Pmm/Bitmap/Init/Ranges.antt =====
-- The layout that `pmm_compute_region_layout` returns.
use my_microkernel.Prelude.{
  ℕ, zero, suc, ◌+◌, ◌-◌, ◌*◌, ◌/◌, ◌%◌, ◌^◌, ◌≤◌, ◌<◌, ◌≡◌, sym, ap, ◌∙◌, arith, true, false, ◌&&◌,
  some, ltb, leb, max, min, word, add32, sub32, page_size, Bool-cases, inl, inr, ◌⊎◌, bit_and,
  and-low_mask, and-high_mask,
}
use my_microkernel.Pmm.Bitmap.{align_up, align_down, ranges_overlap}
use my_microkernel.Pmm.Bitmap.Init.{
  Layout, skip_kernel, range_layout, attempts, compute_region_layout,
}

-- A layout within [start, end): aligned, with a bit for each page and room for the bitmap, which lies at
-- the start, clear of [mb2_start, mb2_end).
pub record IsLayout (l : Layout) (start end mb2_start mb2_end : ℕ) : Type 0 where
  pub aligned : l.managed_start % page_size ≡ 0
  pub from : start ≤ l.managed_start
  pub upto : l.managed_end ≤ end
  pub pages : l.managed_start + l.pages * page_size ≡ l.managed_end
  pub bits : l.pages ≤ l.bitmap_bytes * 8
  pub bytes : l.bitmap_bytes ≤ l.bitmap_storage_bytes
  pub storage : l.bitmap_storage_bytes ≡ l.bitmap_pages * page_size
  pub room : l.bitmap_pages < l.pages
  pub clear : (l.managed_start + l.bitmap_storage_bytes ≤ mb2_start) ⊎ (mb2_end ≤ l.managed_start)

align_down-div : (v : ℕ) → v < word → align_down v ≡ v / 4096 * 4096
align_down-div v h =
    let e : v / 4096 * 2 ^ 12 + v % 4096 ≡ v = omega arith in
    let m : bit_and (v / 4096 * 2 ^ 12 + v % 4096) (1048575 * 2 ^ 12)
        ≡ bit_and (v / 4096) 1048575 * 2 ^ 12 =
      and-high_mask 12 (v / 4096) (v % 4096) 1048575 (omega arith) in
    let w : bit_and v (1048575 * 2 ^ 12) ≡ bit_and (v / 4096) 1048575 * 2 ^ 12 =
      ap (λ (t : ℕ). bit_and t 0xFFFFF000) (sym e) ∙ m in
    omega (arith, w, and-low_mask 20 (v / 4096))

-- Below the last page of the address space nothing wraps.
align_up-div : (v : ℕ) → v + 4096 ≤ word → align_up v ≡ (v + 4095) / 4096 * 4096
align_up-div v h =
    let e : add32 v 4095 ≡ v + 4095 = omega arith in
    ap (λ (t : ℕ). align_down t) e ∙ align_down-div (v + 4095) (omega arith)

skip_kernel-le :
    (s e ks ke : ℕ)
    → s + 8192 ≤ word
    → ke + 8192 ≤ word
    → (s ≤ skip_kernel s e ks ke) × (skip_kernel s e ks ke + 8192 ≤ word)
unfolding skip_kernel
skip_kernel-le s e ks ke p q = ground (arith, align_up-div ke (omega arith))

apart_from :
    (a b ms me : ℕ) → a < b → ms < me → ltb (max a ms) (min b me) ≡ false → (b ≤ ms) ⊎ (me ≤ a)
apart_from a b ms me p q h = ground arith

-- A range that passes the checks of an attempt.
range-IsLayout :
    (start end ms me managed_start managed_end : ℕ)
    → start ≤ managed_start
    → managed_end ≤ end
    → managed_start % 4096 ≡ 0
    → managed_end % 4096 ≡ 0
    → managed_start < managed_end
    → managed_end < word
    → let l = range_layout managed_start managed_end in
      l.bitmap_pages < l.pages
      → (ltb ms me
          && ranges_overlap managed_start (add32 managed_start l.bitmap_storage_bytes) ms me)
        ≡ false
      → ms < me
      → IsLayout l start end ms me
unfolding range_layout ranges_overlap
range-IsLayout start end ms me a e p q al el lt w room sep h =
    let storage = align_up (add32 (sub32 e a / 4096) 7 / 8) in
    let pages : sub32 e a / 4096 ≡ (e - a) / 4096 = omega arith in
    let st = align_up-div (add32 (sub32 e a / 4096) 7 / 8) (omega arith) in
    record {
      aligned = al;
      from = p;
      upto = q;
      pages = omega arith;
      bits = omega arith;
      bytes = omega (arith, st);
      storage = omega (arith, st);
      room = room;
      clear =
          apart_from a (a + storage) ms me (omega (arith, st)) h (ground (arith, sep, st, room));
    }

step_facts :
    (start end ks ke : ℕ)
    → start + 8192 ≤ word
    → end < word
    → ke + 8192 ≤ word
    → let a = align_up (skip_kernel start end ks ke) in
      let e = align_down end in
      (start ≤ a) × (a + 8192 ≤ word) × (a % 4096 ≡ 0) × (e ≤ end) × (e % 4096 ≡ 0)
step_facts start end ks ke p q r =
    let (l, u) = skip_kernel-le start end ks ke p r in
    let a = align_up-div (skip_kernel start end ks ke) (omega arith) in
    let d = align_down-div end q in
    (omega arith, omega arith, omega arith, omega arith, omega arith)

-- An attempt that meets the information lies before its end.
meets_past : (a b ms me : ℕ) → (ltb ms me && ranges_overlap a b ms me) ≡ true → a < me
unfolding ranges_overlap
meets_past a b ms me h = ground arith

attempts-IsLayout :
    (ks ke ms me start end usable_start usable_end n : ℕ) (l : Layout)
    → usable_start ≤ start
    → end ≤ usable_end
    → start + 8192 ≤ word
    → end < word
    → ke + 8192 ≤ word
    → me + 8192 ≤ word
    → ms < me
    → attempts ks ke ms me start end n ≡ some l
    → IsLayout l usable_start usable_end ms me
unfolding attempts
attempts-IsLayout ks ke ms me start end us ue zero l a b c d f g h e = cc
attempts-IsLayout ks ke ms me start end us ue (suc n) l a b c d f g h e =
    let s1 = align_up (skip_kernel start end ks ke) in
    let e1 = align_down end in
    let facts = step_facts start end ks ke c d f in
    let r = range_layout s1 e1 in
    elim (Bool-cases (leb e1 (add32 s1 page_size))) [
      | inl small ↦ absurd (ground arith)
      | inr big ↦ elim (Bool-cases (ltb r.pages 8)) [
        | inl few ↦ absurd (ground arith)
        | inr enough ↦ elim (Bool-cases (leb r.pages r.bitmap_pages)) [
          | inl full ↦ absurd (ground arith)
          | inr room ↦
              elim (Bool-cases
                (ltb ms me && ranges_overlap s1 (add32 s1 r.bitmap_storage_bytes) ms me)) [
                  | inl meets ↦
                      let again : attempts ks ke ms me (align_up me) e1 n ≡ some l =
                        rw (big, enough, room, meets) at e in
                      let up = align_up-div me (omega arith) in
                      attempts-IsLayout ks ke ms me (align_up me) e1 us ue n l
                        (ground
                          (arith, meets_past s1 (add32 s1 r.bitmap_storage_bytes) ms me, facts, up))
                        (omega (arith, facts)) (omega (arith, up)) (omega (arith, facts)) f g h
                        again
                  | inr sep ↦
                      let same : some r ≡ some l = rw (big, enough, room, sep) at e in
                      let found : r ≡ l = cc in
                      rw (← found) (
                        range-IsLayout us ue ms me s1 e1 (omega (arith, facts))
                          (omega (arith, facts)) facts.2 facts.4 (ground (arith, big, facts))
                          (omega (arith, facts)) (ground (arith, room)) sep h)
                ]
        ]
      ]
    ]

-- When the usable range starts, and the kernel image and the Multiboot2 information end, below the last
-- two pages of the address space, and the information is not empty, the layout that
-- `pmm_compute_region_layout` returns lies in the usable range, is page aligned, has a bit for each of
-- its pages, leaves pages beside the bitmap, and keeps the bitmap clear of the information.
pub compute_region_layout-IsLayout :
    (usable_start usable_end kernel_start kernel_end mb2_start mb2_end : ℕ) (l : Layout)
    → usable_start + 8192 ≤ word
    → usable_end < word
    → kernel_end + 8192 ≤ word
    → mb2_end + 8192 ≤ word
    → mb2_start < mb2_end
    → compute_region_layout usable_start usable_end kernel_start kernel_end mb2_start mb2_end
      ≡ some l
    → IsLayout l usable_start usable_end mb2_start mb2_end
unfolding compute_region_layout
compute_region_layout-IsLayout us ue ks ke ms me l a b c d h e =
    attempts-IsLayout ks ke ms me us ue us ue 4 l (omega arith) (omega arith) a b c d h
      (ground arith)
