-- ===== src/Util/AddrList.antt =====
-- src/util/in_addr_list.c: the list of the addresses that are not answered.
--
-- An address is its bytes, a list its nodes from the head on. calloc is not checked, so `alloc` false is a
-- fault.
use n2kafka.Prelude.{
  Bool, true, false, List, [], ◌∷◌, ◌≡◌, ◌↔◌, ◌⊎◌, refl, if◌then◌else◌, Bytes, equal, equal_iff,
  arith,
}
use n2kafka.Prelude.Run.{Run, ret, fault, ◌>>=◌}

unfoldable pub in_addr_list_new : Bool → Run (List Bytes)
in_addr_list_new alloc = if alloc then ret [] else fault

unfoldable pub in_addr_list_add : Bool → List Bytes → Bytes → Run (List Bytes)
in_addr_list_add alloc list addr = if alloc then ret (addr ∷ list) else fault

pub in_addr_list_contains : List Bytes → Bytes → Bool
in_addr_list_contains [] addr = false
in_addr_list_contains (n ∷ list) addr =
    let rest = in_addr_list_contains list addr in if equal addr n then true else rest

-- The nodes in the order in which they are freed, and what is left.
pub in_addr_list_done : List Bytes → List Bytes × List Bytes
in_addr_list_done [] = ([], [])
in_addr_list_done (n ∷ list) = let rest = in_addr_list_done list in (n ∷ rest.0, rest.1)

-- A list with some addresses added in a row.
abbrev pub adds : List Bytes → List Bytes → Run (List Bytes)
adds list [] = ret list
adds list (addr ∷ addrs) = in_addr_list_add true list addr >>= λ list'. adds list' addrs

abbrev pub IsIn : Bytes → List Bytes → Type 0
IsIn addr [] = ⊥
IsIn addr (n ∷ list) = (addr ≡ n) ⊎ IsIn addr list

contains_iff :
    (list : List Bytes) (addr : Bytes) → (in_addr_list_contains list addr ≡ true) ↔ IsIn addr list
unfolding in_addr_list_contains
contains_iff [] addr = ground arith
contains_iff (n ∷ list) addr = ground (arith, contains_iff list addr, equal_iff addr n)

-- What adding in a row comes to.
adds_lem :
    (list addrs : List Bytes) (addr : Bytes)
    → (r : List Bytes) × (adds list addrs ≡ ret r)
      × ((in_addr_list_contains r addr ≡ true) ↔ (IsIn addr addrs ⊎ IsIn addr list))
unfolding in_addr_list_add
adds_lem list [] addr = (list, refl, ground (arith, contains_iff list addr))
adds_lem list (x ∷ addrs) addr =
    let (r, ran, same) = adds_lem (x ∷ list) addrs addr in (r, ran, ground (arith, same))

-- While memory lasts, adding addresses to a new list one by one succeeds, and the list then contains exactly
-- the added ones, in whatever order they came.
pub in_addr_list_contains_iff :
    (addrs : List Bytes) (addr : Bytes)
    → (r : List Bytes) × ((in_addr_list_new true >>= λ list. adds list addrs) ≡ ret r)
      × ((in_addr_list_contains r addr ≡ true) ↔ IsIn addr addrs)
unfolding in_addr_list_new
in_addr_list_contains_iff addrs addr =
    let (r, ran, same) = adds_lem [] addrs addr in (r, ran, ground (arith, same))

-- The end of a list frees every node once, from the head on.
pub in_addr_list_done-all : (list : List Bytes) → in_addr_list_done list ≡ (list, [])
unfolding in_addr_list_done
in_addr_list_done-all [] = refl
in_addr_list_done-all (n ∷ list) = rw (in_addr_list_done-all list) refl
