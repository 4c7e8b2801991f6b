-- ===== src/Paging/Fifo.antt =====
-- The list of pages in use: enlist_pgn_node and find_victim_page.
use hk252_co2017_nhom2_btl.Prelude.{
  List, [], ap, arith, end, fault, length, node, null_deref, of_list, ok, refl, suc, success, ℕ,
  ◌++◌, ◌∷◌, ◌≡◌,
}
use hk252_co2017_nhom2_btl.Mm.{Mm}
use hk252_co2017_nhom2_btl.Vma.{enlist_pgn_node}
use hk252_co2017_nhom2_btl.Paging.{take_last, victim_of, find_victim_page}

-- The last element of `p ∷ ps`, and the elements before it.
abbrev pub last_of : ℕ → List ℕ → ℕ
last_of p [] = p
last_of p (q ∷ ps) = last_of q ps

abbrev pub init_of : ℕ → List ℕ → List ℕ
init_of p [] = []
init_of p (q ∷ ps) = p ∷ init_of q ps

pub length-init_of : (p : ℕ) (ps : List ℕ) → length (init_of p ps) ≡ length ps
length-init_of p [] = refl
length-init_of p (q ∷ ps) = ap suc (length-init_of q ps)

last_of-append : (r p : ℕ) (ps : List ℕ) → last_of r (ps ++ p ∷ []) ≡ p
last_of-append r p [] = refl
last_of-append r p (q ∷ ps) = last_of-append q p ps

init_of-append : (r p : ℕ) (ps : List ℕ) → init_of r (ps ++ p ∷ []) ≡ r ∷ ps
init_of-append r p [] = refl
init_of-append r p (q ∷ ps) = ap (λ l. r ∷ l) (init_of-append q p ps)

take_last_lem :
    (pg : ℕ) (ps : List ℕ) → take_last pg (of_list ps) ≡ ok (last_of pg ps, of_list (init_of pg ps))
unfolding take_last
take_last_lem pg [] = refl
take_last_lem pg (q ∷ ps) = rw (take_last_lem q ps)

pub find_victim_page-two :
    (mm : Mm) (p q old : ℕ) (ps : List ℕ)
    → mm.fifo_pgn ≡ of_list (p ∷ q ∷ ps)
    → find_victim_page mm old
      ≡ ok (success, record mm { fifo_pgn = of_list (p ∷ init_of q ps) }, last_of q ps)
unfolding find_victim_page victim_of
find_victim_page-two mm p q old ps e = ground (arith, e, take_last_lem q ps)

-- Where page `p` entered the list first, then any pages `ps` (the latest in front), and then `q` by
-- enlist_pgn_node, find_victim_page takes out `p`, and leaves the others in their order.
pub find_victim_page-oldest :
    (mm : Mm) (q p old : ℕ) (ps : List ℕ)
    → mm.fifo_pgn ≡ (enlist_pgn_node (of_list (ps ++ p ∷ [])) q).1
    → find_victim_page mm old ≡ ok (success, record mm { fifo_pgn = of_list (q ∷ ps) }, p)
unfolding find_victim_page victim_of enlist_pgn_node
find_victim_page-oldest mm q p old [] e = ground (arith, e, take_last_lem p [])
find_victim_page-oldest mm q p old (r ∷ ps) e =
    ground (arith, e, take_last_lem r (ps ++ p ∷ []), last_of-append r p ps, init_of-append r p ps)

-- A list of one page has a victim, but the code writes through NULL instead of returning it.
find_victim_page-single :
    (mm : Mm) (p old : ℕ) → mm.fifo_pgn ≡ node p end → find_victim_page mm old ≡ fault null_deref
unfolding find_victim_page victim_of
find_victim_page-single mm p old e = ground (arith, e)
