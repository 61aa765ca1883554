-- ===== src/Resolve/Queries/Sound.antt =====
-- Graphs in which ids of codes are those of nodes that run a query, and the edges are in sync.
use cnspec.Common.{
  Bool, true, false, Bool-cases, String, str_eq, eq_iff, Option, some, ◌≡◌, sym, ap, ◌∙◌, inl, inr,
  arith,
}
use cnspec.Common.Dict.{lookup}
use cnspec.Impact.{Impact}
use cnspec.Resolve.{Mquery, Builder, Node, execution_node, new_builder}
use cnspec.Resolve.Edges.{add_edge, add_node}
use cnspec.Resolve.Edges.InSync.{IsInSync, add_edge-IsInSync, add_node-IsInSync, new-IsInSync}
use cnspec.Resolve.Edges.Grown.{
  IsGrown, IsGrown-trans, IsGrown-self, lookup-add_node, add_node-IsGrown, nodes-add_edge,
  add_edge-IsGrown,
}

module _ (is_code : String → Bool) where
  -- Ids of codes are those of nodes that run a query.
  abbrev pub IsRunning : Builder → Type 0
  IsRunning b =
      (id : String) (n : Node)
      → lookup id b.nodes ≡ some n
      → is_code id ≡ true
      → (q : Mquery) × (n ≡ execution_node q)

  pub record IsSound (b : Builder) : Type 0 where
    pub running : IsRunning b
    pub in_sync : IsInSync b

  -- The graph is sound again, and has lost nothing.
  pub record Kept (b c : Builder) : Type 0 where
    pub grown : IsGrown b c
    pub sound : IsSound c

  pub Kept-self : (b : Builder) → IsSound b → Kept b b
  Kept-self b h = record { grown = IsGrown-self b; sound = h }

  pub Kept-trans : (a b c : Builder) → Kept a b → Kept b c → Kept a c
  Kept-trans a b c h k = record { grown = IsGrown-trans a b c h.grown k.grown; sound = k.sound }

  pub new-IsSound : IsSound new_builder
  unfolding lookup
  new-IsSound = record { running = λ id n e i. cc; in_sync = new-IsInSync }

  pub execution-Kept :
      (id : String) (q : Mquery) (b : Builder)
      → IsSound b
      → Kept b (add_node id (execution_node q) b)
  execution-Kept id q b h = record {
    grown = add_node-IsGrown id (execution_node q) b;
    sound = record {
      running = λ k n found code. elim (Bool-cases (str_eq id k)) [
        | inl is ↦ (q, ground (arith, lookup-add_node id k (execution_node q) b))
        | inr other ↦ h.running k n (ground (arith, lookup-add_node id k (execution_node q) b)) code
      ];
      in_sync = add_node-IsInSync id (execution_node q) b h.in_sync;
    };
  }

  pub other-Kept :
      (id : String) (m : Node) (b : Builder)
      → is_code id ≡ false
      → IsSound b
      → Kept b (add_node id m b)
  other-Kept id m b plain h = record {
    grown = add_node-IsGrown id m b;
    sound = record {
      running = λ k n found code. elim (Bool-cases (str_eq id k)) [
        | inl is ↦ absurd (ground (arith, eq_iff id k))
        | inr other ↦ h.running k n (ground (arith, lookup-add_node id k m b)) code
      ];
      in_sync = add_node-IsInSync id m b h.in_sync;
    };
  }

  pub edge-Kept :
      (from to : String) (i : Option Impact) (b : Builder)
      → IsSound b
      → Kept b (add_edge from to i b)
  edge-Kept from to i b h = record {
    grown = add_edge-IsGrown from to i b;
    sound = record {
      running = λ k n found code.
          h.running k n (sym (ap (λ ns. lookup k ns) (nodes-add_edge from to i b)) ∙ found) code;
      in_sync = add_edge-IsInSync from to i b h.in_sync;
    };
  }
