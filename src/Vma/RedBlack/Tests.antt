-- ===== src/Vma/RedBlack/Tests.antt =====
-- A tree of three areas, [4096, 8192), [12288, 16384) and [20480, 24576), with the second at the root.
use my_microkernel.Prelude.{
  ℕ, ◌+◌, ◌≡◌, ◌≢◌, refl, arith, ◌==◌, if◌then◌else◌, true, false, some, none, ok, fail, ◌⊎◌, [],
  ◌∷◌,
}
use my_microkernel.Vma.Area.{VmArea}
use my_microkernel.Vma.RedBlack.{
  color_of, parent_of, Node, Tree, red, black, init, count_areas, find, find_from, pool_alloc,
  rotate_left, rotate_right, pool_free,
}
use my_microkernel.Vma.RedBlack.Insert.{
  add, add_below, attach, descend, insert_fixup, insert_rounds, insert_left, insert_right, recolor,
}
use my_microkernel.Vma.RedBlack.Delete.{
  remove, find_start, remove_node, splice, splice_successor, transplant, tree_minimum, delete_fixup,
  delete_rounds, delete_left, delete_right,
}
use my_microkernel.Vma.RedBlack.Shape.{Shape, leaf, branch, areas, Forms, Ordered}
use my_microkernel.Vma.RedBlack.Lookup.{first_covering}
use my_microkernel.Vma.RedBlack.Descent.{accepts}
use my_microkernel.Vma.RedBlack.Painted.{
  Painted, tip, fork, Above, top, right_of, plug, top_of, paint, holder, summit, outside, Stored,
  Around, hits, hits_above, Located,
}
use my_microkernel.Vma.RedBlack.Painted
use my_microkernel.Vma.RedBlack.Colour.{from_right}
use my_microkernel.Vma.RedBlack.Balance.{Red, Dark, DarkAbove, Balanced, Fits}
use my_microkernel.Vma.RedBlack.Whole.{depth}
use my_microkernel.Vma.RedBlack.Fixup.{IsTree, insert_fixup-IsTree, insert_rounds-ends}
use my_microkernel.Vma.RedBlack.Outcome.{rotations}
use my_microkernel.Vma.RedBlack.Spot.{placed}
use my_microkernel.Vma.RedBlack.Sound.{IsSound}
use my_microkernel.Vma.RedBlack.Starts.{begins, remove-begins}
use my_microkernel.Vma.RedBlack.Start.{init-IsSound}
use my_microkernel.Vma.RedBlack.Seated.{count_all}
use my_microkernel.Vma.RedBlack.Addition.{add-IsSound}
use my_microkernel.Vma.RedBlack.Runs.{add_all, keep_all, add_all-IsSound, find-add_all}

abbrev low : VmArea
low = record { start = 4096; end = 8192; flags = 1; name = 0 }

abbrev middle : VmArea
middle = record { start = 12288; end = 16384; flags = 1; name = 0 }

abbrev high : VmArea
high = record { start = 20480; end = 24576; flags = 1; name = 0 }

abbrev store : ℕ → Node
store n =
    if n == 1
    then record { area = middle; color = black; parent = 0; left = 2; right = 3 }
    else if n == 2
    then record { area = low; color = red; parent = 1; left = 0; right = 0 }
    else if n == 3
    then record { area = high; color = red; parent = 1; left = 0; right = 0 }
    else record {
      area = record { start = 0; end = 0; flags = 0; name = 0 };
      color = black;
      parent = 0;
      left = 0;
      right = if n == 0 then 0 else n + 1;
    }

abbrev three : Tree
three = record { nodes = store; free_head = 4; root = 1; count = 3 }

abbrev shape : Shape
shape = branch 1 middle (branch 2 low leaf leaf) (branch 3 high leaf leaf)

three-Forms : Forms three.nodes three.root shape
unfolding Forms
three-Forms = (
  refl,
  (λ e. omega (arith, e)),
  refl,
  (refl, (λ e. omega (arith, e)), refl, refl, refl),
  (refl, (λ e. omega (arith, e)), refl, refl, refl),
)

three-Ordered : Ordered 0 0xC0000000 shape
unfolding Ordered
three-Ordered =
    (omega arith, (omega arith, omega arith, omega arith), (omega arith, omega arith, omega arith))

found : find three 20481 ≡ some high
unfolding find find_from
found = refl

-- The added area becomes a child of the third, whose parent and uncle turn black.
added :
    ((add three 28672 32768 3 0).1 ≡ ok)
    × (find (add three 28672 32768 3 0).0 28672
        ≡ some (record { start = 28672; end = 32768; flags = 3; name = 0 }))
unfolding add add_below attach descend pool_alloc insert_fixup insert_rounds insert_left
    insert_right recolor rotate_left rotate_right find find_from
added = (refl, refl)

-- The second area is replaced by the third.
removed :
    ((remove three 12288).1 ≡ ok)
    × (find (remove three 12288).0 12288 ≡ none)
    × (find (remove three 12288).0 20480 ≡ some high)
unfolding remove find_start remove_node splice splice_successor transplant tree_minimum delete_fixup
    delete_rounds delete_left delete_right pool_free rotate_left rotate_right find find_from
removed = (refl, refl, refl)

-- A fourth area below the third one, still red under a red parent.
abbrev last : VmArea
last = record { start = 28672; end = 32768; flags = 3; name = 0 }

abbrev crowded_store : ℕ → Node
crowded_store n =
    if n == 3
    then record { area = high; color = red; parent = 1; left = 0; right = 4 }
    else if n == 4
    then record { area = last; color = red; parent = 3; left = 0; right = 0 }
    else store n

abbrev crowded : Tree
crowded = record { nodes = crowded_store; free_head = 5; root = 1; count = 3 }

abbrev low_node : Painted
low_node = fork 2 true low tip tip

abbrev last_node : Painted
last_node = fork 4 true last tip tip

abbrev above_last : Above
above_last = right_of 3 true high tip (right_of 1 false middle low_node (top crowded))

crowded-Located : Located crowded above_last last_node
unfolding Stored Around hits hits_above top_of summit outside holder paint
crowded-Located = record {
  inner = ((λ e. omega (arith, e)), refl, tt, tt);
  outer = (
    (λ e. omega (arith, e)),
    refl,
    tt,
    ((λ e. omega (arith, e)), refl, ((λ e. omega (arith, e)), refl, tt, tt), tt),
  );
  root = refl;
  once = λ n. ground arith;
  sentinel = refl;
  others = λ n p q. refl;
  free = refl;
  counted = refl;
}

above_last-Fits : Fits above_last 0
unfolding Fits Balanced Dark DarkAbove
above_last-Fits = (tt, refl, tt, ((tt, tt, refl, refl), tt))

last_node-Balanced : Balanced last_node 0
unfolding Balanced Dark
last_node-Balanced = (tt, tt, refl, refl)

insert_fixup-IsTree_example :
    (v : IsTree
      (outside above_last)
      (insert_fixup crowded (top_of last_node))
      (areas (Painted.shape (plug above_last last_node))))
    × ((n : ℕ) → hits n v.painted ≡ hits n (plug above_last last_node))
insert_fixup-IsTree_example =
    insert_fixup-IsTree crowded above_last last_node 0 crowded-Located (unfold Red in tt)
      last_node-Balanced above_last-Fits (unfold depth in omega arith)

insert_rounds-ends_example :
    let (t1, z) = insert_rounds crowded (top_of last_node) 2 in color_of t1 (parent_of t1 z) ≢ red
insert_rounds-ends_example =
    insert_rounds-ends crowded above_last last_node 0 2 crowded-Located (unfold Red in tt)
      last_node-Balanced above_last-Fits (unfold depth in omega arith)

-- The third area and the fourth, below the root.
abbrev above_third : Above
above_third = right_of 1 false middle low_node (top crowded)

rotations_example :
    Located (rotate_left crowded 3) above_third (fork 4 true last (fork 3 true high tip tip) tip)
    × Located (rotate_right (rotate_left crowded 3) 4) above_third (fork 3 true high tip last_node)
rotations_example =
    rotations crowded above_third 3 true high 4 true last tip tip tip
      (from_right crowded above_third 3 true high tip last_node crowded-Located)

-- A back end with two areas.
abbrev two : Tree
two = add_all (init three) (middle ∷ (low ∷ []))

add-IsSound_example :
    ((accepts two 6000 9000 (keep_all [] (middle ∷ (low ∷ []))) ≡ false)
      × (add two 6000 9000 3 0 ≡ (two, fail)))
    ⊎ ((accepts two 6000 9000 (keep_all [] (middle ∷ (low ∷ []))) ≡ true)
        × ((add two 6000 9000 3 0).1 ≡ ok)
        × IsSound (add two 6000 9000 3 0).0 (
            placed
              (record { start = 6000; end = 9000; flags = 3; name = 0 })
              (keep_all [] (middle ∷ (low ∷ [])))))
add-IsSound_example =
    add-IsSound two 6000 9000 3 0 (keep_all [] (middle ∷ (low ∷ [])))
      (add_all-IsSound (init three) [] (middle ∷ (low ∷ [])) (init-IsSound three))

find-add_all_example :
    (find (add_all (init three) (middle ∷ (low ∷ []))) 5000
      ≡ first_covering 5000 (keep_all [] (middle ∷ (low ∷ []))))
    × (count_areas (add_all (init three) (middle ∷ (low ∷ [])))
        ≡ count_all (keep_all [] (middle ∷ (low ∷ []))))
find-add_all_example = find-add_all three (middle ∷ (low ∷ [])) 5000

remove-begins_example :
    ((begins 12288 (keep_all [] (middle ∷ (low ∷ []))) ≡ true) × ((remove two 12288).1 ≡ ok))
    ⊎ ((begins 12288 (keep_all [] (middle ∷ (low ∷ []))) ≡ false)
        × (remove two 12288 ≡ (two, fail)))
remove-begins_example =
    remove-begins two 12288 (keep_all [] (middle ∷ (low ∷ [])))
      (add_all-IsSound (init three) [] (middle ∷ (low ∷ [])) (init-IsSound three))
