-- ===== src/Pmm/Bitmap/Scan.antt =====
-- `pmm_find_free_index` of src/kernel/mm/pmm_bitmap.c, against the pages' bits.
use my_microkernel.Prelude.{
  ℕ, zero, suc, ◌+◌, ◌*◌, ◌/◌, ◌%◌, ◌≤◌, ◌<◌, ◌≡◌, ◌≢◌, refl, arith, true, false, leb, ◌==◌,
  digit_ones, ℕ_discrete, Option, none, some, inl, inr, Bool-cases, dec_lt, ==_iff,
}
use my_microkernel.Pmm.Bitmap.{Region, bitmap_test, find_in_byte, find_from, find_free_index}
use my_microkernel.Pmm.Bitmap.Bits.{test_digit}

-- The first free page of [lo, hi) is `i`, or there is none.
abbrev pub FirstFree : Region → (lo hi : ℕ) → Option ℕ → Type 0
FirstFree r lo hi (some i) =
    (lo ≤ i)
    × (i < hi)
    × (i < r.pages)
    × (bitmap_test r i ≡ false)
    × ((j : ℕ) → lo ≤ j → j < i → bitmap_test r j ≡ true)
FirstFree r lo hi none = (j : ℕ) → lo ≤ j → j < hi → j < r.pages → bitmap_test r j ≡ true

find_in_byte-FirstFree :
    (r : Region) (byte bit n : ℕ)
    → FirstFree r (byte * 8 + bit) (byte * 8 + bit + n) (find_in_byte r byte bit n)
unfolding find_in_byte
find_in_byte-FirstFree r byte bit zero = λ j p q. absurd (omega arith)
find_in_byte-FirstFree r byte bit (suc n) = elim (Bool-cases (leb r.pages (byte * 8 + bit))) [
  | inl out ↦ rw out (λ j p q h. absurd (ground arith))
  | inr inside ↦ elim (Bool-cases (bitmap_test r (byte * 8 + bit))) [
    | inr free ↦
        rw (inside, free)
          (omega arith, omega arith, ground arith, free, λ j p q. absurd (omega arith))
    | inl used ↦
        rw (inside, used)
          (widen (find_in_byte r byte (bit + 1) n) used (find_in_byte-FirstFree r byte (bit + 1) n))
  ]
]
  where
    widen :
        (o : Option ℕ)
        → bitmap_test r (byte * 8 + bit) ≡ true
        → FirstFree r (byte * 8 + (bit + 1)) (byte * 8 + (bit + 1) + n) o
        → FirstFree r (byte * 8 + bit) (byte * 8 + bit + suc n) o
    widen (some i) used f = (
      omega (arith, f.0),
      omega (arith, f.1),
      f.2,
      f.3,
      λ j p q. elim (ℕ_discrete (byte * 8 + bit) j) [
        | yes e ↦ rw (← e) used
        | no ne ↦ f.4 j (omega arith) q
      ],
    )
    widen none used f = λ j p q h. elim (ℕ_discrete (byte * 8 + bit) j) [
      | yes e ↦ rw (← e) used
      | no ne ↦ f j (omega arith) (omega arith) h
    ]

-- A byte of ones holds no free page.
full_byte :
    (r : Region) (byte j : ℕ)
    → r.bitmap byte ≡ 255
    → byte * 8 ≤ j
    → j < byte * 8 + 8
    → bitmap_test r j ≡ true
full_byte r byte j e p q =
    let b : j / 8 ≡ byte = omega arith in
    rw (test_digit r j, b, e, digit_ones 8 (j % 8) (omega arith))

join_ranges :
    (r : Region) (lo mid hi : ℕ) (o : Option ℕ)
    → FirstFree r lo mid none
    → lo ≤ mid
    → FirstFree r mid hi o
    → FirstFree r lo hi o
join_ranges r lo mid hi (some i) f l g = (
  omega (arith, g.0),
  g.1,
  g.2,
  g.3,
  λ j p q. elim (dec_lt j mid) [
    | yes h ↦ f j p h (omega (arith, g.2))
    | no h ↦ g.4 j (omega arith) q
  ],
)
join_ranges r lo mid hi none f l g =
    λ j p q h. elim (dec_lt j mid) [ yes k ↦ f j p k h | no k ↦ g j (omega arith) q h ]

extend_found :
    (r : Region) (lo mid hi : ℕ) (i : ℕ)
    → FirstFree r lo mid (some i)
    → mid ≤ hi
    → FirstFree r lo hi (some i)
extend_found r lo mid hi i f h = (f.0, omega (arith, f.1), f.2, f.3, f.4)

byte_test : (v : ℕ) → v ≢ 255 → (v == 255) ≡ false
byte_test v ne = ground arith

-- The free page of a byte, or else that of the bytes after it.
in_turn :
    (r : Region) (lo mid hi : ℕ) (o rest : Option ℕ)
    → lo ≤ mid
    → mid ≤ hi
    → FirstFree r lo mid o
    → FirstFree r mid hi rest
    → FirstFree r lo hi (elim o [ some idx ↦ some idx | none ↦ rest ])
in_turn r lo mid hi (some i) rest l k f g = extend_found r lo mid hi i f k
in_turn r lo mid hi none rest l k f g = join_ranges r lo mid hi rest f l g

find_from-FirstFree :
    (r : Region) (n byte lo mid hi : ℕ)
    → lo ≡ byte * 8
    → mid ≡ lo + 8
    → hi ≡ (byte + n) * 8
    → FirstFree r lo hi (find_from r byte n)
unfolding find_from
find_from-FirstFree r zero byte lo mid hi a b c = λ j p q. absurd (omega arith)
find_from-FirstFree r (suc n) byte lo mid hi a b c =
    let rest =
      find_from-FirstFree r n (byte + 1) mid (mid + 8) hi (omega arith) refl (omega arith) in
    let a0 : lo ≡ byte * 8 + 0 = omega arith in
    let b0 : mid ≡ byte * 8 + 0 + 8 = omega arith in
    let here : FirstFree r (byte * 8 + 0) (byte * 8 + 0 + 8) (find_in_byte r byte 0 8) =
      find_in_byte-FirstFree r byte 0 8 in
    elim (ℕ_discrete (r.bitmap byte) 255) [
      | yes e ↦ rw ((==_iff (r.bitmap byte) 255).1 e) (
          join_ranges r lo mid hi (find_from r (byte + 1) n)
            (λ j p q h. full_byte r byte j e (omega arith) (omega arith)) (omega arith) rest)
      | no ne ↦ rw (byte_test (r.bitmap byte) ne) (
          in_turn r lo mid hi (find_in_byte r byte 0 8) (find_from r (byte + 1) n) (omega arith)
            (omega arith) (rw (a0, b0) here) rest)
    ]

-- When the bitmap has a bit for each page of the region, `pmm_find_free_index` returns the first
-- page whose bit is clear, and returns none only if every page's bit is set.
pub find_free_index-FirstFree :
    (r : Region) → r.pages ≤ r.bitmap_bytes * 8 → FirstFree r 0 r.pages (find_free_index r)
unfolding find_free_index
find_free_index-FirstFree r h =
    narrow (find_from r 0 r.bitmap_bytes)
      (find_from-FirstFree r r.bitmap_bytes 0 0 8 (r.bitmap_bytes * 8) refl refl (omega arith))
  where
    narrow : (o : Option ℕ) → FirstFree r 0 (r.bitmap_bytes * 8) o → FirstFree r 0 r.pages o
    narrow (some i) f = (f.0, f.2, f.2, f.3, f.4)
    narrow none f = λ j p q k. f j p (omega arith) k
