-- ===== src/Keyboard/Ring.antt =====
-- The ring buffer as a queue of characters, under interrupts and reads in any order.
use my_microkernel.Prelude.{
  ℕ, zero, suc, ◌+◌, ◌-◌, ◌%◌, ◌<◌, ◌≡◌, ◌≢◌, refl, ap, ◌∙◌, arith, Bool, true, false, not, ◌||◌,
  ltb, ◌==◌, if◌then◌else◌, update, Option, none, some, ℕ_discrete, ==_iff, List, [], ◌∷◌, ◌++◌,
  bit_and, update_self, update_ne,
}
use my_microkernel.Keyboard.{
  Keyboard, buf_size, buf_put, buf_get, handle_scancode, try_getc, lookup, scancode_map,
  scancode_map_shift,
}

-- The `n` characters of the ring from index `t` on.
unfoldable pub read : (ℕ → ℕ) → (t n : ℕ) → List ℕ
read b t zero = []
read b t (suc n) = b t ∷ read b ((t + 1) % buf_size) n

-- The characters that wait, oldest first.
unfoldable pub size : Keyboard → ℕ
size s = (s.head + buf_size - s.tail) % buf_size

unfoldable pub waiting : Keyboard → List ℕ
waiting s = read s.buf s.tail (size s)

pub record IsValid (s : Keyboard) : Type 0 where
  pub head_in : s.head < buf_size
  pub tail_in : s.tail < buf_size

-- Writing at the end of what is read adds the character there.
read-update :
    (b : ℕ → ℕ) (t n h c : ℕ)
    → t < buf_size
    → n < buf_size
    → h ≡ (t + n) % buf_size
    → read (update b h c) t (suc n) ≡ read b t n ++ (c ∷ [])
unfolding read
read-update b t zero h c p q e =
    let same : t ≡ h = omega (arith, e) in rw (← same, update_self b t c) refl
read-update b t (suc n) h c p q e =
    let other : h ≢ t = λ f. absurd (omega (arith, e, f)) in
    let ih =
      read-update b ((t + 1) % buf_size) n h c (omega arith) (omega arith) (omega (arith, e)) in
    ap (λ (x : ℕ). x ∷ read (update b h c) ((t + 1) % buf_size) (suc n)) (update_ne b h t c other)
    ∙ ap (λ (l : List ℕ). b t ∷ l) ih

buf_put-full : (s : Keyboard) (c : ℕ) → (s.head + 1) % buf_size ≡ s.tail → buf_put s c ≡ s
unfolding buf_put
buf_put-full s c e = ground arith

-- The state after a character has found room.
abbrev stored : Keyboard → ℕ → Keyboard
stored s c = record s { buf = update s.buf s.head c; head = (s.head + 1) % buf_size }

buf_put-room : (s : Keyboard) (c : ℕ) → (s.head + 1) % buf_size ≢ s.tail → buf_put s c ≡ stored s c
unfolding buf_put
buf_put-room s c e = ground arith

tail_test : (a b : ℕ) → a ≢ b → (a == b) ≡ false
tail_test a b h = ground arith

if-IsValid : (b : Bool) (x y : Keyboard) → IsValid x → IsValid y → IsValid (if b then x else y)
if-IsValid true x y v w = v
if-IsValid false x y v w = w

room_test : (n : ℕ) → n ≢ 127 → (n == 127) ≡ false
room_test n h = ground arith

waiting-stored :
    (s : Keyboard) (c : ℕ)
    → IsValid s
    → (s.head + 1) % buf_size ≢ s.tail
    → waiting (stored s c) ≡ waiting s ++ (c ∷ [])
unfolding waiting size
waiting-stored s c v ne =
    let n = (s.head + buf_size - s.tail) % buf_size in
    let grown : ((s.head + 1) % buf_size + buf_size - s.tail) % buf_size ≡ suc n =
      omega (arith, v.head_in, v.tail_in) in
    let at : s.head ≡ (s.tail + n) % buf_size = omega (arith, v.head_in, v.tail_in) in
    ap (λ (m : ℕ). read (update s.buf s.head c) s.tail m) grown
    ∙ read-update s.buf s.tail n s.head c v.tail_in (omega arith) at

-- In a valid buffer, a character that is put waits behind the others, and is dropped when 127
-- characters wait already.
pub waiting-buf_put :
    (s : Keyboard) (c : ℕ)
    → IsValid s
    → waiting (buf_put s c) ≡ (if size s == 127 then waiting s else waiting s ++ (c ∷ []))
waiting-buf_put s c v = elim (ℕ_discrete ((s.head + 1) % buf_size) s.tail) [
  | yes e ↦
      let full : size s ≡ 127 = unfold size in (omega (arith, v.head_in, v.tail_in)) in
      rw (buf_put-full s c e, (==_iff (size s) 127).1 full) refl
  | no ne ↦
      let room : size s ≢ 127 =
        unfold size in (λ p. absurd (omega (arith, v.head_in, v.tail_in, p))) in
      rw (buf_put-room s c ne, room_test (size s) room) (waiting-stored s c v ne)
]

-- What a read has returned: the oldest character, which no longer waits, or none if none waits.
pub Takes : Keyboard → Keyboard × Option ℕ → Type 0
Takes s (s1, none) = (s1 ≡ s) × (waiting s ≡ [])
Takes s (s1, some c) = waiting s ≡ c ∷ waiting s1

-- In a valid buffer, `keyboard_try_getc` takes the character that has waited longest and leaves the
-- others, or returns none, with nothing changed, when no character waits.
pub try_getc-Takes : (s : Keyboard) → IsValid s → Takes s (try_getc s)
unfolding try_getc buf_get Takes waiting size read
try_getc-Takes s v = elim (ℕ_discrete s.tail s.head) [
  | yes e ↦
      let zero_size : (s.head + buf_size - s.tail) % buf_size ≡ 0 =
        omega (arith, v.head_in, v.tail_in) in
      rw ((==_iff s.tail s.head).1 e) (refl, ap (λ (m : ℕ). read s.buf s.tail m) zero_size)
  | no ne ↦
      let t1 = (s.tail + 1) % buf_size in
      let n = (s.head + buf_size - t1) % buf_size in
      let some_size : (s.head + buf_size - s.tail) % buf_size ≡ suc n =
        omega (arith, v.head_in, v.tail_in) in
      rw (tail_test s.tail s.head ne) (ap (λ (m : ℕ). read s.buf s.tail m) some_size)
]

buf_put-IsValid : (s : Keyboard) (c : ℕ) → IsValid s → IsValid (buf_put s c)
buf_put-IsValid s c v = elim (ℕ_discrete ((s.head + 1) % buf_size) s.tail) [
  | yes e ↦ rw (buf_put-full s c e) v
  | no ne ↦ rw (buf_put-room s c ne) (record { head_in = omega arith; tail_in = v.tail_in })
]

-- The interrupt handler and the reader keep the two indices inside the buffer.
pub handle_scancode-IsValid : (s : Keyboard) (sc : ℕ) → IsValid s → IsValid (handle_scancode s sc)
unfolding handle_scancode
handle_scancode-IsValid s sc v =
    let code = bit_and sc 0x7F in
    let up = not (bit_and sc 0x80 == 0) in
    let ch =
      if s.shift_down == 0 then lookup scancode_map code else lookup scancode_map_shift code in
    let typed = buf_put-IsValid s ch v in
    if-IsValid (sc == 0xE0) _ _ (record { head_in = v.head_in; tail_in = v.tail_in })
      (if-IsValid (not (s.e0_prefix == 0)) _ _ (record { head_in = v.head_in; tail_in = v.tail_in })
        (if-IsValid (code == 0x2A || code == 0x36) _ _
          (record { head_in = v.head_in; tail_in = v.tail_in })
          (if-IsValid up _ _ v
            (if-IsValid (ltb code 0x40) _ _ (if-IsValid (ch == 0) _ _ v typed) v))))

pub try_getc-IsValid : (s : Keyboard) → IsValid s → IsValid (try_getc s).0
unfolding try_getc buf_get
try_getc-IsValid s v = elim (ℕ_discrete s.tail s.head) [
  | yes e ↦ rw ((==_iff s.tail s.head).1 e) v
  | no ne ↦ rw (tail_test s.tail s.head ne) (record { head_in = v.head_in; tail_in = omega arith })
]
