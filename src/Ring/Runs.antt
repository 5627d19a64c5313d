-- ===== src/Ring/Runs.antt =====
-- Nodes that join and leave: sequences of AddNode and RemoveNode.
use allidb.Ring.{Ring, RingError, VirtualNode, new, add_node, remove_node}
use allidb.Ring.Order.{IsSort}
use allidb.Ring.Invariant.{IsRing, new-IsRing, add_node-IsRing, remove_node-IsRing}
use allidb.Base.{Bytes, List, Result, [], err, ok, refl, ℤ, ◌∷◌, ◌≡◌}

pub data Change : Type 0 where
  join leave : Bytes → Change

-- A change that fails leaves the ring as it was.
abbrev pub after : Ring → Result RingError Ring → Ring
after r (ok s) = s
after r (err e) = r

after-IsRing :
    (r : Ring) (m : Result RingError Ring)
    → IsRing r
    → ((s : Ring) → m ≡ ok s → IsRing s)
    → IsRing (after r m)
after-IsRing r (ok s) h k = k s refl
after-IsRing r (err e) h k = h

module _ (sha1 : Bytes → Bytes) (sort_slice : List VirtualNode → List VirtualNode) where
  abbrev pub change : Ring → Change → Ring
  change r (join id) = after r (add_node sha1 sort_slice r id)
  change r (leave id) = after r (remove_node r id)

  abbrev pub changes : Ring → List Change → Ring
  changes r [] = r
  changes r (c ∷ cs) = changes (change r c) cs

  module _ (sorts : IsSort sort_slice) where
    change-IsRing : (r : Ring) (c : Change) → IsRing r → IsRing (change r c)
    change-IsRing r (join id) h =
        after-IsRing r (add_node sha1 sort_slice r id) h
          (λ s. add_node-IsRing sha1 sort_slice sorts r s id h)
    change-IsRing r (leave id) h =
        after-IsRing r (remove_node r id) h (λ s. remove_node-IsRing r s id h)

    changes-IsRing : (r : Ring) (cs : List Change) → IsRing r → IsRing (changes r cs)
    changes-IsRing r [] h = h
    changes-IsRing r (c ∷ cs) h = changes-IsRing (change r c) cs (change-IsRing r c h)

    -- Every ring that any sequence of AddNode and RemoveNode, whether they succeed or fail, makes
    -- of a new one, whatever its configuration, is well formed, where the sort is one: its virtual
    -- nodes are in order, and each of its distinct nodes, and no other name, has the configured
    -- number of them.
    pub changes-new-IsRing :
        (per factor : ℤ) (cs : List Change) → IsRing (changes (new per factor) cs)
    changes-new-IsRing per factor cs = changes-IsRing (new per factor) cs (new-IsRing per factor)
