-- ===== src/Cluster/Pipeline/Results.antt =====
-- src/router/cluster.rs: the results of a pipeline's commands, each at its place.
use pyrsedis.Prelude.{
  ℕ, zero, suc, ◌≡◌, refl, ap, none, some, List, [], ◌∷◌, length, get_elem?, map,
}
use pyrsedis.Cluster.Pipeline.{Results, no_results, set_result, unwrap_results}
use pyrsedis.Resp.Types.{RespValue}

-- Every result that is there is the expected one.
abbrev pub Agrees : Results → List RespValue → Type 0
Agrees [] [] = Unit
Agrees [] (v ∷ vs) = ⊥
Agrees (r ∷ results) [] = ⊥
Agrees (none ∷ results) (v ∷ vs) = Agrees results vs
Agrees (some u ∷ results) (v ∷ vs) = (u ≡ v) × Agrees results vs

-- There is a result at a place.
abbrev pub Filled : ℕ → Results → Type 0
Filled i [] = ⊥
Filled zero (none ∷ results) = ⊥
Filled zero (some v ∷ results) = Unit
Filled (suc i) (r ∷ results) = Filled i results

pub no_results-Agrees :
    {A : Type 0} (f : A → RespValue) (xs : List A) → Agrees (no_results (length xs)) (map f xs)
unfolding no_results
no_results-Agrees f [] = tt
no_results-Agrees f (a ∷ more) = no_results-Agrees f more

pub get_elem?-map :
    {A : Type 0} (f : A → RespValue) (xs : List A) (k : ℕ) {a : A}
    → get_elem? xs k ≡ some a
    → get_elem? (map f xs) k ≡ some (f a)
get_elem?-map f [] k h = cc
get_elem?-map f (b ∷ more) zero h = let same : b ≡ _ = cc in ap (λ u. some (f u)) same
get_elem?-map f (b ∷ more) (suc k) h = get_elem?-map f more k h

-- An element of a list that is mapped comes from an element.
pub map_elem :
    {A : Type 0} (f : A → RespValue) (xs : List A) (k : ℕ) {v : RespValue}
    → get_elem? (map f xs) k ≡ some v
    → (a : A) × (get_elem? xs k ≡ some a)
map_elem f [] k h = cc
map_elem f (b ∷ more) zero h = (b, refl)
map_elem f (b ∷ more) (suc k) h = map_elem f more k h

pub set_result-Agrees :
    (i : ℕ) (v : RespValue) (results : Results) (vs : List RespValue)
    → get_elem? vs i ≡ some v
    → Agrees results vs
    → Agrees (set_result i v results) vs
unfolding set_result
set_result-Agrees i v [] [] e h = h
set_result-Agrees i v [] (u ∷ vs) e h = h
set_result-Agrees i v (r ∷ results) [] e h = absurd h
set_result-Agrees zero v (none ∷ results) (u ∷ vs) e h = (cc, h)
set_result-Agrees zero v (some w ∷ results) (u ∷ vs) e h = (cc, h.1)
set_result-Agrees (suc i) v (none ∷ results) (u ∷ vs) e h = set_result-Agrees i v results vs e h
set_result-Agrees (suc i) v (some w ∷ results) (u ∷ vs) e h =
    (h.0, set_result-Agrees i v results vs e h.1)

pub set_result-Filled :
    (i : ℕ) (v : RespValue) (results : Results) (vs : List RespValue)
    → get_elem? vs i ≡ some v
    → Agrees results vs
    → Filled i (set_result i v results)
unfolding set_result
set_result-Filled i v [] [] e h = cc
set_result-Filled i v [] (u ∷ vs) e h = absurd h
set_result-Filled i v (r ∷ results) [] e h = absurd h
set_result-Filled zero v (r ∷ results) (u ∷ vs) e h = tt
set_result-Filled (suc i) v (none ∷ results) (u ∷ vs) e h = set_result-Filled i v results vs e h
set_result-Filled (suc i) v (some w ∷ results) (u ∷ vs) e h = set_result-Filled i v results vs e h.1

pub kept-Filled :
    (i j : ℕ) (v : RespValue) (results : Results)
    → Filled j results
    → Filled j (set_result i v results)
unfolding set_result
kept-Filled i j v [] h = absurd h
kept-Filled zero zero v (r ∷ results) h = tt
kept-Filled zero (suc j) v (r ∷ results) h = h
kept-Filled (suc i) zero v (none ∷ results) h = absurd h
kept-Filled (suc i) zero v (some w ∷ results) h = tt
kept-Filled (suc i) (suc j) v (r ∷ results) h = kept-Filled i j v results h

-- Results that agree and are all there.
pub unwrap_results-full :
    (results : Results) (vs : List RespValue)
    → Agrees results vs
    → ((i : ℕ) (v : RespValue) → get_elem? vs i ≡ some v → Filled i results)
    → unwrap_results results ≡ vs
unfolding unwrap_results
unwrap_results-full [] [] a f = refl
unwrap_results-full [] (v ∷ vs) a f = absurd a
unwrap_results-full (r ∷ results) [] a f = absurd a
unwrap_results-full (none ∷ results) (v ∷ vs) a f = absurd (f 0 v refl)
unwrap_results-full (some u ∷ results) (v ∷ vs) a f =
    rw (a.0, unwrap_results-full results vs a.1 (λ i w e. f (suc i) w e)) refl
