-- ===== src/Pmm/Links/Tests.antt =====
-- The rings of two lists with one node.
use my_microkernel.Prelude.{ℕ, refl, Bool, leb}
use my_microkernel.Pmm.Links.{Links, IsLinked}

-- Every node is alone in its ring.
abbrev alone : Links
alone = record { prev = λ n. n; next = λ n. n }

abbrev heads : ℕ → Bool
heads n = leb n 1

alone-IsLinked : IsLinked alone heads (λ n. n)
alone-IsLinked = record {
  next_linked = λ n h. h;
  prev_linked = λ n h. h;
  prev-next = λ n h. refl;
  next-prev = λ n h. refl;
  next_tag = λ n h. refl;
  prev_tag = λ n h. refl;
}
