-- ===== src/Cluster/Pipeline/Groups.antt =====
-- src/router/cluster.rs: the groups of a pipeline, and the results of its commands.
use pyrsedis.Prelude.{
  ℕ, zero, suc, ◌+◌, ◌≡◌, ◌≢◌, refl, sym, ◌∙◌, ap, subst, some, List, [], ◌∷◌, ◌++◌, Bytes,
  bytes_eq, bytes_eq_sound, get_elem?, arith, Bool-cases, ◌⊎◌, inl, inr, All, All-append,
}
use pyrsedis.Cluster.Pipeline.{Placed, Groups, push_group, group_commands}
use pyrsedis.Resp.Types.{RespValue}

-- What the nodes reply, and the replies that a pipeline should have.
module _ (reply : Bytes → List Bytes → RespValue) (expected : List RespValue) where
  abbrev IsExpected : Bytes → Placed → Type 0
  IsExpected addr p = get_elem? expected p.0 ≡ some (reply addr p.1)

  -- A group for a node whose replies are those that are expected at the places of its commands.
  abbrev pub IsGroup : Bytes × List Placed → Type 0
  IsGroup g = (g.0 ≢ []) × All (IsExpected g.0) g.1

  push_group-IsGroup :
      (addr : Bytes) (p : Placed) (groups : Groups)
      → addr ≢ []
      → IsExpected addr p
      → All IsGroup groups
      → All IsGroup (push_group addr p groups)
  unfolding push_group
  push_group-IsGroup addr p [] n e hs = ((n, (e, tt)), tt)
  push_group-IsGroup addr p ((a, group) ∷ groups) n e (h, hs) =
      elim (Bool-cases (bytes_eq a addr)) [
        | inl same ↦
            let e' : IsExpected a p =
              subst (λ b. IsExpected b p) (sym (bytes_eq_sound a addr same)) e in
            rw same ((h.0, All-append (IsExpected a) group (p ∷ []) h.1 (e', tt)), hs)
        | inr other ↦ rw other (h, push_group-IsGroup addr p groups n e hs)
      ]

  pub group_commands-IsGroup :
      (target : List Bytes → Bytes) (idx : ℕ) (cmds : List (List Bytes)) (groups : Groups)
      → All (λ cmd. target cmd ≢ []) cmds
      → ((k : ℕ) (cmd : List Bytes)
          → get_elem? cmds k ≡ some cmd
          → get_elem? expected (idx + k) ≡ some (reply (target cmd) cmd))
      → All IsGroup groups
      → All IsGroup (group_commands target idx cmds groups)
  unfolding group_commands
  group_commands-IsGroup target idx [] groups n e hs = hs
  group_commands-IsGroup target idx (cmd ∷ cmds) groups (n, ns) e hs =
      group_commands-IsGroup target (suc idx) cmds (push_group (target cmd) (idx, cmd) groups) ns
        (λ k c h.
          ap (get_elem? expected) {x = suc idx + k} {y = idx + suc k} (omega arith) ∙ e (suc k) c h)
        (push_group-IsGroup (target cmd) (idx, cmd) groups n
          (ap (get_elem? expected) {x = idx} {y = idx + 0} (omega arith) ∙ e 0 cmd refl) hs)

-- The places of a group, and of all groups.
abbrev pub HasPlace : ℕ → List Placed → Type 0
HasPlace i [] = ⊥
HasPlace i ((j, cmd) ∷ group) = (i ≡ j) ⊎ HasPlace i group

abbrev pub HasGroup : ℕ → Groups → Type 0
HasGroup i [] = ⊥
HasGroup i ((addr, group) ∷ groups) = HasPlace i group ⊎ HasGroup i groups

HasPlace-append_left : (i : ℕ) (g h : List Placed) → HasPlace i g → HasPlace i (g ++ h)
HasPlace-append_left i [] h e = absurd e
HasPlace-append_left i ((j, cmd) ∷ g) h (inl e) = inl e
HasPlace-append_left i ((j, cmd) ∷ g) h (inr e) = inr (HasPlace-append_left i g h e)

HasPlace-last : (i : ℕ) (cmd : List Bytes) (g : List Placed) → HasPlace i (g ++ ((i, cmd) ∷ []))
HasPlace-last i cmd [] = inl refl
HasPlace-last i cmd ((j, c) ∷ g) = inr (HasPlace-last i cmd g)

push_group-HasGroup :
    (i : ℕ) (addr : Bytes) (p : Placed) (groups : Groups)
    → HasGroup i groups
    → HasGroup i (push_group addr p groups)
unfolding push_group
push_group-HasGroup i addr p [] h = absurd h
push_group-HasGroup i addr p ((a, group) ∷ groups) (inl h) = elim (Bool-cases (bytes_eq a addr)) [
  | inl same ↦ rw same (inl (HasPlace-append_left i group (p ∷ []) h))
  | inr other ↦ rw other (inl h)
]
push_group-HasGroup i addr p ((a, group) ∷ groups) (inr h) = elim (Bool-cases (bytes_eq a addr)) [
  | inl same ↦ rw same (inr h)
  | inr other ↦ rw other (inr (push_group-HasGroup i addr p groups h))
]

pushed-HasGroup :
    (i : ℕ) (addr : Bytes) (cmd : List Bytes) (groups : Groups)
    → HasGroup i (push_group addr (i, cmd) groups)
unfolding push_group
pushed-HasGroup i addr cmd [] = inl (inl refl)
pushed-HasGroup i addr cmd ((a, group) ∷ groups) = elim (Bool-cases (bytes_eq a addr)) [
  | inl same ↦ rw same (inl (HasPlace-last i cmd group))
  | inr other ↦ rw other (inr (pushed-HasGroup i addr cmd groups))
]

kept-HasGroup :
    (target : List Bytes → Bytes) (idx : ℕ) (cmds : List (List Bytes)) (groups : Groups) (i : ℕ)
    → HasGroup i groups
    → HasGroup i (group_commands target idx cmds groups)
unfolding group_commands
kept-HasGroup target idx [] groups i h = h
kept-HasGroup target idx (cmd ∷ cmds) groups i h =
    kept-HasGroup target (suc idx) cmds (push_group (target cmd) (idx, cmd) groups) i
      (push_group-HasGroup i (target cmd) (idx, cmd) groups h)

-- Every command is in a group.
pub group_commands-HasGroup :
    (target : List Bytes → Bytes) (idx : ℕ) (cmds : List (List Bytes)) (groups : Groups) (k : ℕ)
    {cmd : List Bytes}
    → get_elem? cmds k ≡ some cmd
    → HasGroup (idx + k) (group_commands target idx cmds groups)
unfolding group_commands
group_commands-HasGroup target idx [] groups k h = cc
group_commands-HasGroup target idx (cmd ∷ cmds) groups zero h =
    kept-HasGroup target (suc idx) cmds (push_group (target cmd) (idx, cmd) groups) (idx + 0) (
      subst (λ i. HasGroup i (push_group (target cmd) (idx, cmd) groups)) {x = idx} {y = idx + 0}
        (omega arith) (pushed-HasGroup idx (target cmd) cmd groups))
group_commands-HasGroup target idx (cmd ∷ cmds) groups (suc k) h =
    subst
      (λ i.
        HasGroup i
          (group_commands target (suc idx) cmds (push_group (target cmd) (idx, cmd) groups)))
      {x = suc idx + k} {y = idx + suc k} (omega arith)
      (group_commands-HasGroup target (suc idx) cmds (push_group (target cmd) (idx, cmd) groups) k
        h)
