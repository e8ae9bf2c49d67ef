-- ===== src/Memory/Cluster.antt =====
-- The cluster search of truepresence/memory/identity_graph.py finds what can be reached.
use true_presence_ese.Base.{
  ℕ, zero, suc, ◌+◌, ◌≤◌, ◌≡◌, refl, sym, subst, ◌↔◌, ◌⊎◌, inl, inr, Bool, true, false, some, List,
  [], ◌∷◌, arith, Bool-cases, length, if◌then◌else◌,
}
use true_presence_ese.Base.Text.{Text, text_eq, text_eq→eq, text_eq_refl, mem_text}
use true_presence_ese.Base.Assoc.{find}
use true_presence_ese.Memory.IdentityGraph.{
  Graph, neighbors, push_unvisited, explore, edges, get_session_cluster,
}

abbrev IsIn : Text → List Text → Type 0
IsIn x xs = mem_text x xs ≡ true

-- The sessions that can be reached from one along the connections.
pub data Reaches (g : Graph) (a : Text) : Text → Type 0 where
  here : Reaches g a a
  onward : {b c : Text} → Reaches g a b → mem_text c (neighbors b g) ≡ true → Reaches g a c

module _ (visited : List Text) (x : Text) where
  push-keeps : (ns stack : List Text) → IsIn x stack → IsIn x (push_unvisited ns visited stack)
  unfolding push_unvisited mem_text
  push-keeps [] stack h = h
  push-keeps (n ∷ ns) stack h =
      push-keeps ns _
        (elim (Bool-cases (mem_text n visited)) [ inl e ↦ rw e h | inr e ↦ rw e (ground arith) ])

  push-adds :
      (ns stack : List Text)
      → mem_text x visited ≡ false
      → IsIn x ns
      → IsIn x (push_unvisited ns visited stack)
  unfolding push_unvisited mem_text
  push-adds [] stack n h = cc h
  push-adds (m ∷ ns) stack n h = elim (Bool-cases (text_eq x m)) [
    | inl e ↦
        push-keeps ns _
          (rw (subst (λ z. mem_text z visited ≡ false) (text_eq→eq x m e) n) (ground arith))
    | inr e ↦ push-adds ns _ n (ground arith)
  ]

  pushed :
      (m : Text) (stack : List Text) (b : Bool)
      → IsIn x (if b then stack else m ∷ stack)
      → IsIn x stack ⊎ (text_eq x m ≡ true)
  unfolding mem_text
  pushed m stack true h = inl h
  pushed m stack false h = elim (Bool-cases (text_eq x m)) [
    | inl e ↦ inr e
    | inr e ↦ inl (ground arith)
  ]

  push-only :
      (ns stack : List Text) → IsIn x (push_unvisited ns visited stack) → IsIn x stack ⊎ IsIn x ns
  unfolding push_unvisited mem_text
  push-only [] stack h = inl h
  push-only (m ∷ ns) stack h = elim (push-only ns _ h) [
    | inl k ↦ elim (pushed m stack (mem_text m visited) k) [
      | inl i ↦ inl i
      | inr i ↦ inr (ground arith)
    ]
    | inr k ↦ inr (ground arith)
  ]

length-push :
    (ns visited stack : List Text)
    → length (push_unvisited ns visited stack) ≤ length ns + length stack
unfolding push_unvisited
length-push [] visited stack = omega arith
length-push (n ∷ ns) visited stack = elim (Bool-cases (mem_text n visited)) [
  | inl e ↦ rw e (omega (arith, length-push ns visited stack))
  | inr e ↦ rw e (omega (arith, length-push ns visited (n ∷ stack)))
]

-- The edges of the sessions that are not visited.
unfoldable pub open_edges : Graph → List Text → ℕ
open_edges [] visited = 0
open_edges ((k, ns) ∷ g) visited =
    (if mem_text k visited then 0 else length ns) + open_edges g visited

open_edges_mono :
    (g : Graph) (visited : List Text) (x : Text) → open_edges g (x ∷ visited) ≤ open_edges g visited
unfolding open_edges mem_text
open_edges_mono [] visited x = omega arith
open_edges_mono ((k, ns) ∷ g) visited x = ground (arith, open_edges_mono g visited x)

open_edges-visit :
    (g : Graph) (visited : List Text) (x : Text)
    → mem_text x visited ≡ false
    → open_edges g (x ∷ visited) + length (neighbors x g) ≤ open_edges g visited
unfolding open_edges mem_text neighbors find
open_edges-visit [] visited x h = omega arith
open_edges-visit ((k, ns) ∷ g) visited x h = elim (Bool-cases (text_eq k x)) [
  | inl e ↦
      rw (e, find)
        (ground (
          arith,
          open_edges_mono g visited x,
          subst (λ z. mem_text z visited ≡ false) (sym (text_eq→eq k x e)) h,
        ))
  | inr e ↦ rw (e, find) (ground (arith, open_edges-visit g visited x h))
]

IsIn-head : (x : Text) (xs : List Text) → IsIn x (x ∷ xs)
unfolding mem_text
IsIn-head x xs = ground (arith, text_eq_refl x)

IsIn-tail : (x y : Text) (xs : List Text) → IsIn x xs → IsIn x (y ∷ xs)
unfolding mem_text
IsIn-tail x y xs h = ground arith

uncons : (x y : Text) (xs : List Text) → IsIn x (y ∷ xs) → (y ≡ x) ⊎ IsIn x xs
unfolding mem_text
uncons x y xs h = elim (Bool-cases (text_eq x y)) [
  | inl e ↦ inl (sym (text_eq→eq x y e))
  | inr e ↦ inr (ground arith)
]

-- What was visited or on the stack stays so when a session is visited.
placed :
    (c : Text) (ns stack visited : List Text) (y : Text)
    → IsIn y visited ⊎ IsIn y (c ∷ stack)
    → IsIn y (c ∷ visited) ⊎ IsIn y (push_unvisited ns (c ∷ visited) stack)
placed c ns stack visited y (inl h) = inl (IsIn-tail y c visited h)
placed c ns stack visited y (inr h) = elim (uncons y c stack h) [
  | inl e ↦ inl (subst (λ z. IsIn z (c ∷ visited)) e (IsIn-head c visited))
  | inr k ↦ inr (push-keeps (c ∷ visited) y ns stack k)
]

-- A session that stood on the stack below a visited one is still there.
popped :
    (c : Text) (stack visited : List Text) (y : Text)
    → mem_text c visited ≡ true
    → IsIn y visited ⊎ IsIn y (c ∷ stack)
    → IsIn y visited ⊎ IsIn y stack
unfolding mem_text
popped c stack visited y e (inl h) = inl h
popped c stack visited y e (inr h) = elim (Bool-cases (text_eq y c)) [
  | inl f ↦ inl (subst (λ z. mem_text z visited ≡ true) (sym (text_eq→eq y c f)) e)
  | inr f ↦ inr (ground arith)
]

open_edges-none : (g : Graph) → open_edges g [] ≡ edges g
unfolding open_edges edges mem_text
open_edges-none [] = refl
open_edges-none ((k, ns) ∷ g) = omega (arith, open_edges-none g)

module _ (g : Graph) (start : Text) where
  -- What holds as the search goes on.
  record Searching (stack visited : List Text) : Type 0 where
    stack_reached : (x : Text) → IsIn x stack → Reaches g start x
    visited_reached : (x : Text) → IsIn x visited → Reaches g start x
    closed : (x y : Text) → IsIn x visited → IsIn y (neighbors x g) → IsIn y visited ⊎ IsIn y stack
    started : IsIn start visited ⊎ IsIn start stack

  skip-Searching :
      (c : Text) (stack visited : List Text)
      → mem_text c visited ≡ true
      → Searching (c ∷ stack) visited
      → Searching stack visited
  unfolding mem_text
  skip-Searching c stack visited e s = record {
    stack_reached = λ x h. s.stack_reached x (ground arith);
    visited_reached = s.visited_reached;
    closed = λ x y h k. popped c stack visited y e (s.closed x y h k);
    started = popped c stack visited start e s.started;
  }

  visit-Searching :
      (c : Text) (stack visited : List Text)
      → mem_text c visited ≡ false
      → Searching (c ∷ stack) visited
      → Searching (push_unvisited (neighbors c g) (c ∷ visited) stack) (c ∷ visited)
  visit-Searching c stack visited e s =
      let reached = s.stack_reached c (IsIn-head c stack) in
      record {
        stack_reached = λ x h. elim (push-only (c ∷ visited) x (neighbors c g) stack h) [
          | inl k ↦ s.stack_reached x (IsIn-tail x c stack k)
          | inr k ↦ onward reached k
        ];
        visited_reached = λ x h. elim (uncons x c visited h) [
          | inl f ↦ subst (Reaches g start) f reached
          | inr k ↦ s.visited_reached x k
        ];
        closed = λ x y h k. elim (uncons x c visited h) [
          | inl f ↦ elim (Bool-cases (mem_text y (c ∷ visited))) [
            | inl v ↦ inl v
            | inr v ↦ inr (
                push-adds (c ∷ visited) y (neighbors c g) stack v
                  (subst (λ z. IsIn y (neighbors z g)) (sym f) k))
          ]
          | inr v ↦ placed c (neighbors c g) stack visited y (s.closed x y v k)
        ];
        started = placed c (neighbors c g) stack visited start s.started;
      }

  explore-finds :
      (fuel : ℕ) (stack visited : List Text)
      → Searching stack visited
      → length stack + open_edges g visited ≤ fuel
      → (found : List Text) × (explore fuel g stack visited ≡ some found) × Searching [] found
  unfolding explore
  explore-finds zero [] visited s h = (visited, refl, s)
  explore-finds (suc fuel) [] visited s h = (visited, refl, s)
  explore-finds zero (c ∷ stack) visited s h = ground arith
  explore-finds (suc fuel) (c ∷ stack) visited s h = elim (Bool-cases (mem_text c visited)) [
    | inl e ↦
        rw (e, explore)
          (explore-finds fuel stack visited (skip-Searching c stack visited e s) (omega arith))
    | inr e ↦
        rw (e, explore)
          (explore-finds fuel (push_unvisited (neighbors c g) (c ∷ visited) stack) (c ∷ visited)
            (visit-Searching c stack visited e s)
            (omega (
              arith,
              length-push (neighbors c g) (c ∷ visited) stack,
              open_edges-visit g visited c e,
            )))
  ]

  IsIn-some : (x : Text) (xs : List Text) → IsIn x xs ⊎ IsIn x [] → IsIn x xs
  unfolding mem_text
  IsIn-some x xs (inl h) = h
  IsIn-some x xs (inr h) = cc h

  found_all :
      (found : List Text) → Searching [] found → (y : Text) → Reaches g start y → IsIn y found
  found_all found s y here = IsIn-some start found s.started
  found_all found s y (onward {b} r k) = IsIn-some y found (s.closed b y (found_all found s b r) k)

  start-Searching : Searching (start ∷ []) []
  unfolding mem_text
  start-Searching = record {
    stack_reached =
        λ x h. elim (uncons x start [] h) [ inl e ↦ subst (Reaches g start) e here | inr k ↦ cc k ];
    visited_reached = λ x h. cc h;
    closed = λ x y h k. cc h;
    started = inr (IsIn-head start []);
  }

-- The cluster search ends, and its cluster holds exactly the sessions that can be reached from the
-- given one along the connections.
pub get_session_cluster-Reaches :
    (hash : Text → Text) (id : Text) (g : Graph)
    → (cluster : List Text) × (get_session_cluster hash id g ≡ some cluster)
      × ((y : Text) → (mem_text y cluster ≡ true) ↔ Reaches g (hash id) y)
unfolding get_session_cluster
get_session_cluster-Reaches hash id g =
    let found =
      explore-finds g (hash id) (suc (edges g)) (hash id ∷ []) [] (start-Searching g (hash id))
        (omega (arith, open_edges-none g)) in
    (found.0, found.1, (λ y. (found.2.visited_reached y, found_all g (hash id) found.0 found.2 y)))
