-- ===== src/Cli/Selection/Selectable.antt =====
-- The cluster that a user is connected to, however they answer.
use mathlib.Core.Path.{subst}
use dsql_cli.Prelude.{
  ℕ, zero, suc, ◌≡◌, refl, sym, ap, ◌∙◌, Bool, true, false, Bool-cases, ◌⊎◌, inl, inr, Option, none,
  some, List, [], ◌∷◌, ◌++◌, Chars, codes, text_eq,
}
use dsql_cli.Error.{Result, ok, err}
use dsql_cli.App.Data.{
  DiscoverableCluster, ClusterTarget, from_discovered, ClusterStatus, creating, active, idle,
  inactive, updating, deleting, deleted, failed, pending_setup, pending_delete, unknown,
}
use dsql_cli.Cli.Selection.{
  Prompt, and_then, required, find_cluster, Call, Round, confirmed, ask_unknown, refuse_inactive,
  by_status, chosen, select_once, or_again, select_rounds, list_clusters, after_list,
  select_discovered_target,
}

abbrev unknown_status : Chars
unknown_status = codes "the selected cluster has unknown status"

module _ (P : Prompt) where
  -- The cluster that is chosen in a world is active, and nothing more is asked; or its status is
  -- unknown, and the user, asked behind the warning, said yes to it in the last call of all.
  abbrev pub Selectable : DiscoverableCluster → P.World → P.World → Type 0
  Selectable c u v =
      ((c.status ≡ some active) × (v ≡ u))
      ⊎ (((c.status ≡ none) ⊎ (c.status ≡ some unknown))
          × (P.confirm_unknown_cluster c (P.warning unknown_status u).0 ≡ (v, ok true)))

  abbrev pub ListedIn : List DiscoverableCluster → DiscoverableCluster → Type 0
  ListedIn clusters c =
      (before : List DiscoverableCluster) × (after : List DiscoverableCluster) × (clusters
        ≡ before ++ (c ∷ after))

  -- A round that begins in the world `u` and ends in `v` with a target.
  pub record ChosenIn (clusters : List DiscoverableCluster) (u v : P.World) (target : ClusterTarget)
      : Type 0 where
    pub cluster : DiscoverableCluster
    pub listed : ListedIn clusters cluster
    pub is_cluster : target ≡ from_discovered cluster
    pub answer : Chars
    pub answered : (P.select_cluster clusters u).1 ≡ ok (some answer)
    pub named : text_eq cluster.id answer ≡ true
    pub selectable : Selectable cluster (P.select_cluster clusters u).0 v

  -- The worlds at the beginning of the rounds.
  pub data Reached (clusters : List DiscoverableCluster) : P.World → P.World → Type 0 where
    first_round : (w : P.World) → Reached clusters w w
    next_round :
        (w u v : P.World)
        → Reached clusters u v
        → select_once P clusters w ≡ (u, ok none)
        → Reached clusters w v

  pub record Chosen (clusters : List DiscoverableCluster) (w v : P.World) (target : ClusterTarget)
      : Type 0 where
    pub last_round : P.World
    pub reached : Reached clusters w last_round
    pub chosen_in : ChosenIn clusters last_round v target

  -- What holds of the world and the target, where a round ends with one.
  abbrev RoundIs : (P.World → ClusterTarget → Type 0) → Round P → Type 0
  RoundIs Q (w, err e) = Unit
  RoundIs Q (w, ok none) = Unit
  RoundIs Q (w, ok (some target)) = Q w target

  and_then-RoundIs :
      {A : Type 0} (Q : P.World → ClusterTarget → Type 0) (f : A → P.World → Round P)
      (x : P.World × Result A)
      → ((a : A) (v : P.World) → x ≡ (v, ok a) → RoundIs Q (f a v))
      → RoundIs Q (and_then f x)
  and_then-RoundIs Q f (w, ok a) h = h a w refl
  and_then-RoundIs Q f (w, err e) h = tt

  some-cluster : (c d : DiscoverableCluster) → some c ≡ some d → c ≡ d
  some-cluster c d e = cc

  find_cluster-ListedIn :
      (id : Chars) (clusters : List DiscoverableCluster) (c : DiscoverableCluster)
      → find_cluster id clusters ≡ some c
      → ListedIn clusters c × (text_eq c.id id ≡ true)
  find_cluster-ListedIn id [] c e = absurd (cc)
  find_cluster-ListedIn id (d ∷ clusters) c e = elim (Bool-cases (text_eq d.id id)) [
    | inl t ↦
        (let same = some-cluster d c (rw t at e) in
          (
            ([], clusters, ap (λ (x : DiscoverableCluster). x ∷ clusters) same),
            ap (λ (x : DiscoverableCluster). text_eq x.id id) (sym same) ∙ t,
          ))
    | inr f ↦
        (let rest = find_cluster-ListedIn id clusters c (rw f at e) in
          ((d ∷ rest.0.0, rest.0.1, ap (λ (l : List DiscoverableCluster). d ∷ l) rest.0.2), rest.1))
  ]

  -- The target of a cluster that is selectable.
  abbrev Selected : DiscoverableCluster → P.World → P.World → ClusterTarget → Type 0
  Selected c u v target = (target ≡ from_discovered c) × Selectable c u v

  confirmed-Selected :
      (c : DiscoverableCluster) (answer : Bool) (u v : P.World)
      → (answer ≡ true → Selectable c u v)
      → RoundIs (Selected c u) (confirmed P c answer v)
  confirmed-Selected c true u v s = (refl, s refl)
  confirmed-Selected c false u v s = tt

  confirmation :
      (c : DiscoverableCluster) (warned : P.World × Result (Unit {0})) (answer : Bool) (v : P.World)
      → and_then (λ done x. P.confirm_unknown_cluster c x) warned ≡ (v, ok answer)
      → answer ≡ true
      → P.confirm_unknown_cluster c warned.0 ≡ (v, ok true)
  confirmation c (w, ok done) answer v e t = e ∙ ap (λ (b : Bool). (v, Result.ok b)) t
  confirmation c (w, err error) answer v e t = absurd (cc)

  ask_unknown-Selected :
      (c : DiscoverableCluster) (w : P.World)
      → (c.status ≡ none) ⊎ (c.status ≡ some unknown)
      → RoundIs (Selected c w) (ask_unknown P c w)
  ask_unknown-Selected c w u =
      let warned = P.warning unknown_status w in
      and_then-RoundIs (Selected c w) (confirmed P c)
        (and_then (λ done v. P.confirm_unknown_cluster c v) warned)
        (λ answer v e.
          confirmed-Selected c answer w v (λ t. inr (u, confirmation c warned answer v e t)))

  refuse_inactive-Selected :
      (Q : P.World → ClusterTarget → Type 0) (w : P.World) → RoundIs Q (refuse_inactive P w)
  refuse_inactive-Selected Q w =
      and_then-RoundIs Q (λ done v. (v, ok none))
        (P.warning (codes "the selected cluster is not active and cannot be selected") w)
        (λ a v e. tt)

  by_status-Selected :
      (c : DiscoverableCluster) (status : Option ClusterStatus) (w : P.World)
      → c.status ≡ status
      → RoundIs (Selected c w) (by_status P c status w)
  by_status-Selected c none w e = ask_unknown-Selected c w (inl e)
  by_status-Selected c (some unknown) w e = ask_unknown-Selected c w (inr e)
  by_status-Selected c (some active) w e = (refl, inl (e, refl))
  by_status-Selected c (some creating) w e = refuse_inactive-Selected (Selected c w) w
  by_status-Selected c (some idle) w e = refuse_inactive-Selected (Selected c w) w
  by_status-Selected c (some inactive) w e = refuse_inactive-Selected (Selected c w) w
  by_status-Selected c (some updating) w e = refuse_inactive-Selected (Selected c w) w
  by_status-Selected c (some deleting) w e = refuse_inactive-Selected (Selected c w) w
  by_status-Selected c (some deleted) w e = refuse_inactive-Selected (Selected c w) w
  by_status-Selected c (some failed) w e = refuse_inactive-Selected (Selected c w) w
  by_status-Selected c (some pending_setup) w e = refuse_inactive-Selected (Selected c w) w
  by_status-Selected c (some pending_delete) w e = refuse_inactive-Selected (Selected c w) w

  required-some :
      {A : Type 0} (message : Chars) (o : Option A) (w v : P.World) (a : A)
      → required message o w ≡ (v, ok a)
      → (o ≡ some a) × (w ≡ v)
  required-some message none w v a e = absurd (cc)
  required-some message (some b) w v a e = (cc, cc)

  answered-some :
      {A : Type 0} (message : Chars) (x : P.World × Result (Option A)) (v : P.World) (a : A)
      → and_then (required message) x ≡ (v, ok a)
      → (x.1 ≡ ok (some a)) × (x.0 ≡ v)
  answered-some message (w, ok o) v a e =
      let r = required-some message o w v a e in (ap (λ x. Result.ok x) r.0, r.1)
  answered-some message (w, err error) v a e = absurd (cc)

  -- The round around a choice that is found in the inventory.
  round-ChosenIn :
      (clusters : List DiscoverableCluster) (w : P.World) (id : Chars) (c : DiscoverableCluster)
      (x : Round P)
      → (P.select_cluster clusters w).1 ≡ ok (some id)
      → ListedIn clusters c × (text_eq c.id id ≡ true)
      → RoundIs (Selected c (P.select_cluster clusters w).0) x
      → RoundIs (ChosenIn clusters w) x
  round-ChosenIn clusters w id c (v, err e) a l s = tt
  round-ChosenIn clusters w id c (v, ok none) a l s = tt
  round-ChosenIn clusters w id c (v, ok (some target)) a l s = record {
    cluster = c;
    listed = l.0;
    is_cluster = s.0;
    answer = id;
    answered = a;
    named = l.1;
    selectable = s.1;
  }

  select_once-ChosenIn :
      (clusters : List DiscoverableCluster) (w : P.World)
      → RoundIs (ChosenIn clusters w) (select_once P clusters w)
  unfolding select_once
  select_once-ChosenIn clusters w =
      let message = codes "selected cluster is not in the discoverable inventory" in
      and_then-RoundIs (ChosenIn clusters w) (chosen P clusters)
        (and_then (required (codes "a cluster selection is required"))
          (P.select_cluster clusters w))
        (λ id v e.
          let a =
            answered-some (codes "a cluster selection is required") (P.select_cluster clusters w) v
              id e in
          and_then-RoundIs (ChosenIn clusters w) (λ c u. by_status P c c.status u)
            (required message (find_cluster id clusters) v)
            (λ c u g.
              let r = required-some message (find_cluster id clusters) v u c g in
              round-ChosenIn clusters w id c (by_status P c c.status u) a.0
                (find_cluster-ListedIn id clusters c r.0)
                (subst (λ z. RoundIs (Selected c z) (by_status P c c.status u)) (sym (a.1 ∙ r.1))
                  (by_status-Selected c c.status u refl))))

  -- What the loop returns, where it does.
  abbrev pub ReturnsChosen :
      List DiscoverableCluster → P.World → Option (Call P ClusterTarget) → Type 0
  ReturnsChosen clusters w none = Unit
  ReturnsChosen clusters w (some (v, err e)) = Unit
  ReturnsChosen clusters w (some (v, ok target)) = Chosen clusters w v target

  next_round-ReturnsChosen :
      (clusters : List DiscoverableCluster) (w u : P.World) (rest : Option (Call P ClusterTarget))
      → select_once P clusters w ≡ (u, ok none)
      → ReturnsChosen clusters u rest
      → ReturnsChosen clusters w rest
  next_round-ReturnsChosen clusters w u none e r = tt
  next_round-ReturnsChosen clusters w u (some (v, err error)) e r = tt
  next_round-ReturnsChosen clusters w u (some (v, ok target)) e r = record {
    last_round = r.last_round;
    reached = next_round w u r.last_round r.reached e;
    chosen_in = r.chosen_in;
  }

  or_again-ReturnsChosen :
      (clusters : List DiscoverableCluster) (w : P.World) (rest : Option (Call P ClusterTarget))
      (x : Round P)
      → select_once P clusters w ≡ x
      → ReturnsChosen clusters x.0 rest
      → RoundIs (ChosenIn clusters w) x
      → ReturnsChosen clusters w (or_again P rest x)
  or_again-ReturnsChosen clusters w rest (v, err error) e r h = tt
  or_again-ReturnsChosen clusters w rest (v, ok none) e r h =
      next_round-ReturnsChosen clusters w v rest e r
  or_again-ReturnsChosen clusters w rest (v, ok (some target)) e r h = record {
    last_round = w;
    reached = first_round w;
    chosen_in = h;
  }

  select_rounds-ReturnsChosen :
      (rounds : ℕ) (clusters : List DiscoverableCluster) (w : P.World)
      → ReturnsChosen clusters w (select_rounds P rounds clusters w)
  unfolding select_rounds
  select_rounds-ReturnsChosen zero clusters w = tt
  select_rounds-ReturnsChosen (suc rounds) clusters w =
      let once = select_once P clusters w in
      or_again-ReturnsChosen clusters w (select_rounds P rounds clusters once.0) once refl
        (select_rounds-ReturnsChosen rounds clusters once.0) (select_once-ChosenIn clusters w)

  after_list-ReturnsChosen :
      (rounds : ℕ) (clusters : List DiscoverableCluster) (x : Call P (Unit {0}))
      → ReturnsChosen clusters x.0 (after_list P rounds clusters x)
  after_list-ReturnsChosen rounds clusters (w, ok done) =
      select_rounds-ReturnsChosen rounds clusters w
  after_list-ReturnsChosen rounds clusters (w, err e) = tt

  returned :
      (clusters : List DiscoverableCluster) (u : P.World) (x : Option (Call P ClusterTarget))
      (v : P.World) (target : ClusterTarget)
      → ReturnsChosen clusters u x
      → x ≡ some (v, ok target)
      → Chosen clusters u v target
  returned clusters u x v target h e = subst (ReturnsChosen clusters u) e h

  -- A discovered target is a cluster of the inventory, the one that the user selected in a round
  -- that was reached by rounds without a target. That cluster is active, or its status is unknown
  -- and the user confirmed it in that round, behind the warning: the confirmation is the last call
  -- that was made.
  pub select_discovered_target-Chosen :
      (rounds : ℕ) (clusters : List DiscoverableCluster) (w v : P.World) (target : ClusterTarget)
      → select_discovered_target P rounds clusters w ≡ some (v, ok target)
      → Chosen clusters (list_clusters P clusters w).0 v target
  unfolding select_discovered_target
  select_discovered_target-Chosen rounds clusters w v target e =
      returned clusters (list_clusters P clusters w).0
        (after_list P rounds clusters (list_clusters P clusters w)) v target
        (after_list-ReturnsChosen rounds clusters (list_clusters P clusters w)) e
