-- ===== src/PoolCluster/Caches.antt =====
-- The cache of lib/pool_cluster.js answers what a search would.
use node_mysql.Prelude.{
  ℕ, suc, ◌≡◌, sym, ap, ◌∙◌, subst, Bool, true, false, inl, inr, Bool-cases, Option-cases, Option,
  none, some, List, [], ◌∷◌, ◌++◌, All, if◌then◌else◌, if-elim, ◌==◌, ==_iff, ltb,
}
use node_mysql.PoolCluster.{
  Node, Cluster, filter, get_node, splice_id, add, remove_node, increase_error_count,
  decrease_error_count, cached, is_online, found_node_ids, find_node_ids, remove_all,
  remove_matching, delete_node, put_node, clear_find_caches,
}

module _ (matches : ℕ → ℕ → Bool) where
  -- Every entry of the cache lists the ids that match now.
  abbrev pub IsFresh : Cluster → Type 0
  IsFresh c = All (λ entry. entry.1 ≡ filter (matches entry.0) c.serviceable_node_ids) c.find_caches

  cached-eq :
      (ids : List ℕ) (pattern : ℕ) (entries : List (ℕ × List ℕ)) (found : List ℕ)
      → All (λ entry. entry.1 ≡ filter (matches entry.0) ids) entries
      → cached pattern entries ≡ some found
      → found ≡ filter (matches pattern) ids
  unfolding cached
  cached-eq ids pattern [] found h e = absurd (cc)
  cached-eq ids pattern ((p, is) ∷ rest) found (h, hs) e = elim (Bool-cases (p == pattern)) [
    | inl y ↦
        let same = (==_iff p pattern).0 y in
        let hit : some is ≡ some found =
          ap (λ b. if b then some is else cached pattern rest) (sym y) ∙ e in
        let those : is ≡ found = cc in sym those ∙ h ∙ ap (λ q. filter (matches q) ids) same
    | inr n ↦
        cached-eq ids pattern rest found hs
          (ap (λ b. if b then some is else cached pattern rest) (sym n) ∙ e)
  ]

  found_node_ids-filter :
      (pattern : ℕ) (c : Cluster)
      → IsFresh c
      → found_node_ids matches pattern c ≡ filter (matches pattern) c.serviceable_node_ids
  unfolding found_node_ids
  found_node_ids-filter pattern c h =
      let go : Option (List ℕ) → List ℕ =
        λ o. elim o [ some ids ↦ ids | none ↦ filter (matches pattern) c.serviceable_node_ids ] in
      elim (Option-cases (cached pattern c.find_caches)) [
        | inl e ↦ ap go e
        | inr (ids, e) ↦ ap go e ∙ cached-eq c.serviceable_node_ids pattern c.find_caches ids h e
      ]

  remove_node-IsFresh : (n : Node) (c : Cluster) → IsFresh c → IsFresh (remove_node n c)
  unfolding remove_node
  remove_node-IsFresh n c h = go (splice_id n.id c.serviceable_node_ids)
    where
      go :
          (o : Option (List ℕ))
          → IsFresh (elim o [
            | none ↦ c
            | some ids ↦ clear_find_caches (record c {
              serviceable_node_ids = ids;
              nodes = delete_node n.id c.nodes;
              ended = c.ended ++ (n.id ∷ []);
            })
          ])
      go none = h
      go (some ids) = tt

  add-IsFresh : (id : ℕ) (c : Cluster) → IsFresh c → IsFresh (add id c)
  unfolding add
  add-IsFresh id c h = go (get_node id c.nodes)
    where
      go :
          (o : Option Node)
          → IsFresh (elim o [
            | some n ↦ c
            | none ↦ clear_find_caches (record c {
              nodes = c.nodes ++ (record { id = id; error_count = 0; offline_until = 0 } ∷ []);
              serviceable_node_ids = c.serviceable_node_ids ++ (id ∷ []);
            })
          ])
      go none = tt
      go (some n) = h

  increase_error_count-IsFresh :
      (now : ℕ) (n : Node) (c : Cluster) → IsFresh c → IsFresh (increase_error_count now n c)
  unfolding increase_error_count
  increase_error_count-IsFresh now n c h =
      let counted : Node = record n { error_count = suc n.error_count } in
      if-elim IsFresh (ltb counted.error_count c.remove_node_error_count) _ _ (λ y. h)
        (λ o.
          if-elim IsFresh (ltb 0 c.restore_node_timeout) _ _ (λ y. h)
            (λ o. remove_node-IsFresh counted (record c { nodes = put_node counted c.nodes }) h))

  find_node_ids-IsFresh :
      (now pattern : ℕ) (include_offline : Bool) (c : Cluster)
      → IsFresh c
      → IsFresh (find_node_ids matches now pattern include_offline c).0
  unfolding find_node_ids
  find_node_ids-IsFresh now pattern true c h = (found_node_ids-filter pattern c h, h)
  find_node_ids-IsFresh now pattern false c h = (found_node_ids-filter pattern c h, h)

  remove_all-IsFresh : (ids : List ℕ) (c : Cluster) → IsFresh c → IsFresh (remove_all matches ids c)
  unfolding remove_all
  remove_all-IsFresh [] c h = h
  remove_all-IsFresh (id ∷ ids) c h =
      let go : Option Node → Cluster = λ o. elim o [
        | none ↦ remove_all matches ids c
        | some n ↦ remove_all matches ids (remove_node n c)
      ] in
      elim (Option-cases (get_node id c.nodes)) [
        | inl e ↦ subst IsFresh (sym (ap go e)) (remove_all-IsFresh ids c h)
        | inr (n, e) ↦
            subst IsFresh (sym (ap go e))
              (remove_all-IsFresh ids (remove_node n c) (remove_node-IsFresh n c h))
      ]

-- What a cluster is asked to do; the last two are the outcome of a node's `getConnection`.
pub data Request : Type 0 where
  add_request remove_request : ℕ → Request
  find_request : ℕ → ℕ → Bool → Request
  failed_request : ℕ → Node → Request
  succeeded_request : Node → Request

module _ (matches : ℕ → ℕ → Bool) where
  unfoldable pub serve : Request → Cluster → Cluster
  serve (add_request id) c = add id c
  serve (remove_request pattern) c = remove_matching matches pattern c
  serve (find_request now pattern include_offline) c =
      (find_node_ids matches now pattern include_offline c).0
  serve (failed_request now n) c = increase_error_count now n c
  serve (succeeded_request n) c = decrease_error_count n c

  unfoldable pub serve_all : List Request → Cluster → Cluster
  serve_all [] c = c
  serve_all (r ∷ rs) c = serve_all rs (serve r c)

  serve-IsFresh : (r : Request) (c : Cluster) → IsFresh matches c → IsFresh matches (serve r c)
  unfolding serve decrease_error_count remove_matching
  serve-IsFresh (add_request id) c h = add-IsFresh matches id c h
  serve-IsFresh (remove_request pattern) c h =
      remove_all-IsFresh matches _ _ (find_node_ids-IsFresh matches 0 pattern true c h)
  serve-IsFresh (find_request now pattern off) c h =
      find_node_ids-IsFresh matches now pattern off c h
  serve-IsFresh (failed_request now n) c h = increase_error_count-IsFresh matches now n c h
  serve-IsFresh (succeeded_request n) c h = h

  serve_all-IsFresh :
      (rs : List Request) (c : Cluster) → IsFresh matches c → IsFresh matches (serve_all rs c)
  unfolding serve_all
  serve_all-IsFresh [] c h = h
  serve_all-IsFresh (r ∷ rs) c h = serve_all-IsFresh rs (serve r c) (serve-IsFresh r c h)

  answered :
      (now pattern : ℕ) (include_offline : Bool) (d : Cluster)
      → found_node_ids matches pattern d ≡ filter (matches pattern) d.serviceable_node_ids
      → (find_node_ids matches now pattern include_offline d).1 ≡ (
          if include_offline
          then filter (matches pattern) d.serviceable_node_ids
          else filter (is_online now d.nodes) (filter (matches pattern) d.serviceable_node_ids))
  unfolding find_node_ids
  answered now pattern true d e = e
  answered now pattern false d e = ap (filter (is_online now d.nodes)) e

  -- After any sequence of requests to a cluster whose cache was empty, a search with a pattern returns
  -- the ids in service that match it, in their order, and of these the ones that are online if the
  -- offline ones are not wanted: the cache is never stale.
  pub find_node_ids-filter :
      (rs : List Request) (c : Cluster) (now pattern : ℕ) (include_offline : Bool)
      → c.find_caches ≡ []
      → let d = serve_all rs c in
        let ids = filter (matches pattern) d.serviceable_node_ids in
        (find_node_ids matches now pattern include_offline d).1
        ≡ (if include_offline then ids else filter (is_online now d.nodes) ids)
  find_node_ids-filter rs c now pattern include_offline e =
      let d = serve_all rs c in
      let fresh : IsFresh matches c =
        subst
          (λ es.
            All (λ (entry : ℕ × List ℕ). entry.1 ≡ filter (matches entry.0) c.serviceable_node_ids)
              es)
          (sym e) tt in
      let found = found_node_ids-filter matches pattern d (serve_all-IsFresh rs c fresh) in
      answered now pattern include_offline d found
