-- ===== src/Pmm/Buddy/Pages.antt =====
-- The page interface of the buddy back end: `pmm_buddy_alloc_page` and `pmm_buddy_free_page`.
use mathlib.Core.Path.{subst}
use native.Mathlib.Nat.{pow-suc}
use my_microkernel.Prelude.{
  ℕ, zero, suc, ◌+◌, ◌-◌, ◌*◌, ◌%◌, ◌^◌, ◌≤◌, ◌<◌, ◌≡◌, ◌≢◌, refl, sym, ◌∙◌, arith, true, false,
  not, ◌||◌, ◌==◌, word, ◌⊎◌, inl, inr, Bool-cases, ◌↔◌, ap, Option, none, some, Option-cases,
  page_size, and-low_mask, partner, partner_cases, add32, if◌then◌else◌, Bool,
}
use my_microkernel.Pmm.Links.{Links, list_pop}
use my_microkernel.Pmm.Buddy.{
  Zone, max_order, index_to_phys, phys_to_index, buddy_alloc, buddy_free, add_free, alloc_page,
  free_page, calc_buddy_index, can_merge, split, popped, take_block, set_order, carve, find_order,
  page_result, head,
}
use my_microkernel.Pmm.Buddy.Invariant.{IsValid, IsHole, IsFreePage, buddy_index}
use my_microkernel.Pmm.Buddy.Blocks.{in_zone, not_free}
use my_microkernel.Pmm.Buddy.Alloc.{Allocated, buddy_alloc-Allocated, buddy_alloc-none}
use my_microkernel.Pmm.Buddy.Free.{Freed, buddy_free-Freed}

-- Where the zone lies in physical memory: page aligned, not at 0, and below 4 GiB.
pub record IsPlaced (z : Zone) : Type 0 where
  pub base_aligned : z.base_phys % page_size ≡ 0
  pub base_pos : 0 < z.base_phys
  pub below : z.base_phys + z.total_pages * page_size ≤ word

-- In a zone that lies page aligned below 4 GiB, the index of the address of a page is the page's
-- index, and the address is computed without wrapping around.
pub phys_to_index-index_to_phys :
    (z : Zone) (idx : ℕ)
    → IsPlaced z
    → idx < z.total_pages
    → (phys_to_index z (index_to_phys z idx) ≡ idx)
      × (index_to_phys z idx ≡ z.base_phys + idx * page_size)
unfolding phys_to_index index_to_phys
phys_to_index-index_to_phys z idx pl h = omega (arith, pl)

-- In a valid zone that lies page aligned below 4 GiB, `pmm_buddy_alloc_page` returns 0, and
-- changes nothing, or the address of a page of the zone that
-- was free; then that page and no other ceases to be free, and the zone stays valid.
pub alloc_page-Allocated :
    (z : Zone)
    → IsValid z
    → IsPlaced z
    → (alloc_page z ≡ (z, 0))
      ⊎ ((idx : ℕ) × (z' : Zone) × (alloc_page z ≡ (z', index_to_phys z idx))
          × Allocated z z' idx 0)
unfolding alloc_page
alloc_page-Allocated z v pl = elim (Bool-cases (not z.ready || z.total_free == 0)) [
  | inl off ↦ inl (ground arith)
  | inr on ↦ elim (Option-cases (buddy_alloc z 0).1) [
    | inl miss ↦
        let e : buddy_alloc z 0 ≡ ((buddy_alloc z 0).0, none) =
          λ i. ((buddy_alloc z 0).0, miss i) in
        inl (ground (arith, e, (buddy_alloc-none z (buddy_alloc z 0).0 0 v e).0))
    | inr (idx, hit) ↦
        let e : buddy_alloc z 0 ≡ ((buddy_alloc z 0).0, some idx) =
          λ i. ((buddy_alloc z 0).0, hit i) in
        inr (idx, (buddy_alloc z 0).0, ground (arith, e), buddy_alloc-Allocated z _ 0 idx v e)
  ]
]

-- What `pmm_buddy_free_page` accepts: the address of a page of the zone that starts no free block.
pub record Accepts (z : Zone) (idx : ℕ) : Type 0 where
  pub ready : z.ready ≡ true
  pub inside : idx < z.total_pages
  pub taken : z.is_free idx ≡ false

free_page_accepted :
    (z : Zone) (idx : ℕ)
    → IsPlaced z
    → Accepts z idx
    → free_page z (index_to_phys z idx) ≡ buddy_free z idx (z.order idx) (max_order - z.order idx)
unfolding free_page
free_page_accepted z idx pl a =
    let f = phys_to_index-index_to_phys z idx pl a.inside in
    rw (f.0) (ground (arith, f.1, pl, a, and-low_mask 12 (index_to_phys z idx)))

-- In a valid zone that lies page aligned below 4 GiB and is ready, `pmm_buddy_free_page` on the
-- first page of a block that is allocated, of the order that the page records, makes the block's pages free, and no others.
pub free_page-Freed :
    (z : Zone) (idx : ℕ)
    → IsValid z
    → IsPlaced z
    → Accepts z idx
    → IsHole z idx (z.order idx)
    → Freed z (free_page z (index_to_phys z idx)) idx (z.order idx)
free_page-Freed z idx v pl a h = rw (free_page_accepted z idx pl a) (
    buddy_free-Freed z idx (z.order idx) (max_order - z.order idx) v h
      (omega (arith, h.block.small)))

-- What an allocation leaves as it is.
record Same (z z' : Zone) : Type 0 where
  base : z'.base_phys ≡ z.base_phys
  total : z'.total_pages ≡ z.total_pages
  ready : z'.ready ≡ z.ready

split-Same : (z z' : Zone) (idx order left : ℕ) → Same z z' → Same z (split z' idx order left)
unfolding split add_free
split-Same z z' idx order zero s = s
split-Same z z' idx order (suc left) s =
    let cur = order + left in
    split-Same z (add_free z' (add32 idx (2 ^ cur)) cur) idx order left
      (record { base = s.base; total = s.total; ready = s.ready })

popped-Same : (z : Zone) (cur : ℕ) (r : Links × Option ℕ) → Same z (popped z cur r).0
unfolding popped
popped-Same z cur (links, none) = record { base = refl; total = refl; ready = refl }
popped-Same z cur (links, some pg) = record { base = refl; total = refl; ready = refl }

carve-Same : (z : Zone) (order : ℕ) (o : Option ℕ) → Same z (carve z order o).0
unfolding carve set_order take_block
carve-Same z order none = record { base = refl; total = refl; ready = refl }
carve-Same z order (some cur) =
    let r = popped z cur (list_pop z.links (head cur)) in
    let s =
      split-Same z r.0 r.1 order (cur - order) (popped-Same z cur (list_pop z.links (head cur))) in
    record { base = s.base; total = s.total; ready = s.ready }

buddy_alloc-Same : (z : Zone) (order : ℕ) → Same z (buddy_alloc z order).0
unfolding buddy_alloc
buddy_alloc-Same z order = carve-Same z order (find_order z (max_order + 1 - order) order)

page_result-Same : (z : Zone) (r : Zone × Option ℕ) → Same z r.0 → Same z (page_result z r).0
unfolding page_result
page_result-Same z (z', none) s = s
page_result-Same z (z', some idx) s = s

index_to_phys-Same :
    (z z' : Zone) (idx : ℕ) → Same z z' → index_to_phys z idx ≡ index_to_phys z' idx
unfolding index_to_phys
index_to_phys-Same z z' idx s = rw (s.base) refl

IsPlaced-Same : (z z' : Zone) → Same z z' → IsPlaced z → IsPlaced z'
IsPlaced-Same z z' s pl = record {
  base_aligned = rw (s.base) pl.base_aligned;
  base_pos = rw (s.base) pl.base_pos;
  below = rw (s.base, s.total) pl.below;
}

alloc_page-Same : (z : Zone) → Same z (alloc_page z).0
unfolding alloc_page
alloc_page-Same z = guarded (not z.ready) (z.total_free == 0)
  where
    guarded :
        (a b : Bool)
        → Same z (if a then (z, 0) else if b then (z, 0) else page_result z (buddy_alloc z 0)).0
    guarded true b = record { base = refl; total = refl; ready = refl }
    guarded false true = record { base = refl; total = refl; ready = refl }
    guarded false false = page_result-Same z (buddy_alloc z 0) (buddy_alloc-Same z 0)

alloc_page-ready : (z : Zone) → (alloc_page z).1 ≢ 0 → z.ready ≡ true
unfolding alloc_page
alloc_page-ready z n = elim (Bool-cases z.ready) [
  | inl on ↦ on
  | inr off ↦ absurd (n (rw off refl))
]

-- `z'` is valid and has the free pages of `z`.
abbrev Restores : (z z' : Zone) → Type 0
Restores z z' =
    IsValid z' × ((p : ℕ) → IsFreePage z' p ↔ IsFreePage z p) × (z'.total_free ≡ z.total_free)

-- The release of an allocated page.
free_page-Allocated :
    (z z' : Zone) (idx : ℕ)
    → IsPlaced z'
    → z'.ready ≡ true
    → Allocated z z' idx 0
    → Restores z (free_page z' (index_to_phys z' idx))
free_page-Allocated z z' idx pl rdy a = (
  f.valid,
  λ p. (λ g. (a.pages p).1 ((f.pages p).0 g), λ g. (f.pages p).1 ((a.pages p).0 g)),
  f.total ∙ a.total,
)
  where
    accepts : Accepts z' idx
    accepts = record {
      ready = rdy;
      inside = in_zone z' a.valid a.hole;
      taken = not_free z' a.valid a.hole;
    }

    f : Freed z' (free_page z' (index_to_phys z' idx)) idx 0
    f =
        subst (λ k. Freed z' (free_page z' (index_to_phys z' idx)) idx k) a.recorded
          (free_page-Freed z' idx a.valid pl accepts
            (subst (λ k. IsHole z' idx k) (sym a.recorded) a.hole))

-- Freeing what was allocated restores the free pages: in a valid zone that lies page aligned below 4 GiB, when
-- `pmm_buddy_alloc_page` returns an address other than 0, `pmm_buddy_free_page` of this address leaves a zone that
-- is valid, and has the same free pages and the same count of them as before the allocation.
pub free_page-alloc_page :
    (z : Zone)
    → IsValid z
    → IsPlaced z
    → (alloc_page z).1 ≢ 0
    → let (z', phys) = alloc_page z in
      let z'' = free_page z' phys in
      IsValid z'' × ((p : ℕ) → IsFreePage z'' p ↔ IsFreePage z p) × (z''.total_free ≡ z.total_free)
free_page-alloc_page z v pl n = elim (alloc_page-Allocated z v pl) [
  | inl e ↦ absurd (n (ap (λ r. r.1) e))
  | inr (idx, z', e, a) ↦
      let s = subst (λ (r : Zone × ℕ). Same z r.0) e (alloc_page-Same z) in
      let placed : IsPlaced z' = IsPlaced-Same z z' s pl in
      subst (λ (r : Zone × ℕ). Restores z (free_page r.0 r.1))
        (sym (e ∙ λ i. (z', index_to_phys-Same z z' idx s i)))
        (free_page-Allocated z z' idx placed (s.ready ∙ alloc_page-ready z n) a)
]

-- A single page inside a larger free block.
module _ (z : Zone) (idx : ℕ) (v : IsValid z) (single : z.order idx ≡ 0) (f : IsFreePage z idx)
    (taken : z.is_free idx ≡ false) where
  abbrev bi : ℕ
  bi = calc_buddy_index idx 0

  not_first : f.first ≢ idx
  not_first e = cc (rw e at f.is_free, taken)

  larger : (o : ℕ) × (z.order f.first ≡ suc o)
  larger = go (z.order f.first) refl
    where
      go : (k : ℕ) → z.order f.first ≡ k → (o : ℕ) × (z.order f.first ≡ suc o)
      go zero e = absurd (not_first (omega (arith, f.from, rw e at f.below)))
      go (suc o) e = (o, e)

  -- Its partner lies in the same block.
  partner_inside : (f.first ≤ bi) × (bi < f.first + 2 ^ z.order f.first)
  partner_inside =
      let o = larger.0 in
      let b = v.blocks f.first f.is_free in
      let size : 2 ^ z.order f.first ≡ 2 ^ o * 2 = ap (λ k. 2 ^ k) larger.1 ∙ pow-suc 2 o in
      let even : f.first ≡ b.half * 2 ^ o * 2 =
        omega (arith, b.aligned, ap (λ (t : ℕ). b.half * t) size) in
      let at : bi ≡ partner idx =
        ap (λ k. calc_buddy_index k 0) (omega arith) ∙ buddy_index 0 idx ∙ omega arith in
      ground (arith, at, partner_cases idx, f.from, f.below, size, even)

  no_merge : can_merge z idx 0 ≡ false
  no_merge = elim (Bool-cases (can_merge z idx 0)) [ inr e ↦ e | inl e ↦ absurd (clash e) ]
    where
      clash : ¬ (can_merge z idx 0 ≡ true)
      clash e =
          let m : (z.is_free bi ≡ true) × (z.order bi ≡ 0) = unfold can_merge in ground arith in
          let apart : f.first < bi → f.first + 2 ^ z.order f.first ≤ bi =
            v.apart f.first bi f.is_free m.0 in
          let differ : f.first ≢ bi = λ e'. omega (arith, larger.1, rw (← e') at m.1) in
          omega (arith, partner_inside, apart (omega (arith, partner_inside, differ)))

-- Freeing a page twice is not always noticed: in a valid, ready zone that lies page aligned below
-- 4 GiB, a page that lies in a free block without starting it, and records order 0, is accepted by
-- `pmm_buddy_free_page`, and the zone is not valid afterwards.
pub free_page_twice :
    (z : Zone) (idx : ℕ)
    → IsValid z
    → IsPlaced z
    → Accepts z idx
    → z.order idx ≡ 0
    → IsFreePage z idx
    → ¬ (IsValid (free_page z (index_to_phys z idx)))
free_page_twice z idx v pl a single f bad = overlap (subst IsValid added bad)
  where
    first_differs : idx ≢ f.first
    first_differs e = not_first z idx v single f a.taken (sym e)

    added : free_page z (index_to_phys z idx) ≡ add_free z idx 0
    added =
        free_page_accepted z idx pl a
        ∙ ap (λ k. buddy_free z idx k (max_order - k)) single
        ∙ (unfold buddy_free in rw (no_merge z idx v single f a.taken))

    overlap : ¬ (IsValid (add_free z idx 0))
    overlap w =
        unfold add_free in
        (let meet =
            w.apart f.first idx (ground (arith, f.is_free)) (ground arith)
              (omega (arith, f.from, first_differs)) in
          ground (arith, meet, f.below, first_differs))
