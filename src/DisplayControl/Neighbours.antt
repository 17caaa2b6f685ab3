-- ===== src/DisplayControl/Neighbours.antt =====
-- What the two nested loops over `index` and `other` find.
use kheadless_krdp.Prelude.{
  ℕ, zero, suc, ◌+◌, ◌≡◌, ◌≢◌, ◌↔◌, refl, true, not, ◌&&◌, inl, inr, some, List, [], ◌∷◌, map,
  arith, ok, ◌==◌, get_elem?, Bool-cases,
}
use native.Mathlib.Nat.{add-zero}
use kheadless_krdp.Monitor.{DisplayMonitor}
use kheadless_krdp.DisplayControl.{
  DispConstants, WireMonitor, decoded_monitor, adjacent, has_adjacent_monitor, check_adjacent,
}
use kheadless_krdp.DisplayControl.Spec.{IsConnected}

pub get_elem?-map :
    {A B : Type 0} (f : A → B) (xs : List A) (i : ℕ) {b : B}
    → get_elem? (map f xs) i ≡ some b
    → (a : A) × (get_elem? xs i ≡ some a) × (b ≡ f a)
get_elem?-map f [] i h = cc
get_elem?-map f (x ∷ xs) zero h = (x, refl, cc)
get_elem?-map f (x ∷ xs) (suc i) h = get_elem?-map f xs i h

get_elem?-map-some :
    {A B : Type 0} (f : A → B) (xs : List A) (i : ℕ) {a : A}
    → get_elem? xs i ≡ some a
    → get_elem? (map f xs) i ≡ some (f a)
get_elem?-map-some f [] i h = cc
get_elem?-map-some f (x ∷ xs) zero h = cc
get_elem?-map-some f (x ∷ xs) (suc i) h = get_elem?-map-some f xs i h

-- A monitor beside `m` at a position other than `index`; positions count from `j`.
abbrev HasNeighbour : ℕ → DisplayMonitor → ℕ → List DisplayMonitor → Type 0
HasNeighbour index m j others =
    (k : ℕ) × (o : DisplayMonitor) × (get_elem? others k ≡ some o)
    × (index ≢ j + k)
    × (adjacent m o ≡ true)

has_adjacent→neighbour :
    (index : ℕ) (m : DisplayMonitor) (j : ℕ) (others : List DisplayMonitor)
    → has_adjacent_monitor index m j others ≡ true
    → HasNeighbour index m j others
unfolding has_adjacent_monitor
has_adjacent→neighbour index m j [] h = cc
has_adjacent→neighbour index m j (o ∷ os) h = elim (Bool-cases (not (index == j) && adjacent m o)) [
  | inl e ↦ (0, o, refl, ground arith, ground arith)
  | inr e ↦
      let (k, o', at, ne, adj) = has_adjacent→neighbour index m (suc j) os (ground arith) in
      (suc k, o', at, (λ q. ne (omega (arith, q))), adj)
]

neighbour→has_adjacent :
    (index : ℕ) (m : DisplayMonitor) (j : ℕ) (others : List DisplayMonitor) (k : ℕ)
    (o : DisplayMonitor)
    → get_elem? others k ≡ some o
    → index ≢ j + k
    → adjacent m o ≡ true
    → has_adjacent_monitor index m j others ≡ true
unfolding has_adjacent_monitor
neighbour→has_adjacent index m j [] k o at ne adj = cc
neighbour→has_adjacent index m j (o' ∷ os) zero o at ne adj = ground arith
neighbour→has_adjacent index m j (o' ∷ os) (suc k) o at ne adj =
    ground
      (arith, neighbour→has_adjacent index m (suc j) os k o at (λ q. ne (omega (arith, q))) adj)

check→each :
    (all : List DisplayMonitor) (i : ℕ) (ms : List DisplayMonitor)
    → check_adjacent all i ms ≡ ok tt
    → (k : ℕ) (m : DisplayMonitor) → get_elem? ms k ≡ some m
    → has_adjacent_monitor (i + k) m 0 all ≡ true
unfolding check_adjacent
check→each all i [] h k m at = cc
check→each all i (n ∷ ms) h zero m at = ground (arith, add-zero i)
check→each all i (n ∷ ms) h (suc k) m at =
    let e : i + suc k ≡ suc i + k = omega arith in
    rw e (check→each all (suc i) ms (ground arith) k m at)

each→check :
    (all : List DisplayMonitor) (i : ℕ) (ms : List DisplayMonitor)
    → ((k : ℕ) (m : DisplayMonitor)
        → get_elem? ms k ≡ some m
        → has_adjacent_monitor (i + k) m 0 all ≡ true)
    → check_adjacent all i ms ≡ ok tt
unfolding check_adjacent
each→check all i [] h = refl
each→check all i (m ∷ ms) h =
    let first : has_adjacent_monitor i m 0 all ≡ true = rw add-zero at (h 0 m refl) in
    rw first (each→check all (suc i) ms (λ k n at. later k n at))
  where
    later :
        (k : ℕ) (n : DisplayMonitor)
        → get_elem? ms k ≡ some n
        → has_adjacent_monitor (suc i + k) n 0 all ≡ true
    later k n at = let e : suc i + k ≡ i + suc k = omega arith in rw e (h (suc k) n at)

-- The loops find no fault exactly when every decoded monitor has another one beside it.
pub check_adjacent_iff :
    (c : DispConstants) (ws : List WireMonitor)
    → (check_adjacent (map (decoded_monitor c) ws) 0 (map (decoded_monitor c) ws) ≡ ok tt)
      ↔ IsConnected c ws
check_adjacent_iff c ws = (connected, λ h. each→check _ 0 _ (found h))
  where
    connected :
        check_adjacent (map (decoded_monitor c) ws) 0 (map (decoded_monitor c) ws) ≡ ok tt
        → IsConnected c ws
    connected h i v at =
        let t = check→each _ 0 _ h i (decoded_monitor c v) (get_elem?-map-some _ ws i at) in
        let (k, o, at', ne, adj) = has_adjacent→neighbour (0 + i) _ 0 _ t in
        let (w, at'', e) = get_elem?-map (decoded_monitor c) ws k at' in
        (k, w, at'', (λ q. ne (omega (arith, q))), rw e at adj)

    found :
        IsConnected c ws
        → (k : ℕ) (m : DisplayMonitor) → get_elem? (map (decoded_monitor c) ws) k ≡ some m
        → has_adjacent_monitor (0 + k) m 0 (map (decoded_monitor c) ws) ≡ true
    found h k m at =
        let (v, at', e) = get_elem?-map (decoded_monitor c) ws k at in
        let (j, w, at'', ne, adj) = h k v at' in
        neighbour→has_adjacent (0 + k) m 0 _ j (decoded_monitor c w)
          (get_elem?-map-some _ ws j at'') (λ q. ne (omega (arith, q))) (rw e adj)
