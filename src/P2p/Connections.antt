-- ===== src/P2p/Connections.antt =====
-- What holds of the connections of p2pearl/p2p/node.py and of its sharechain over any history.
use p2pearl.Prelude.{
  ℕ, ◌+◌, ◌≡◌, sym, ap, subst, Bool, ltb, all, inl, inr, if◌then◌else◌, if-elim, ltb→le,
  Option-cases, none, some, List, [], ◌∷◌, All, arith,
}
use p2pearl.Prelude.Keys.{Bytes, Str}
use p2pearl.Consensus.Share.{ShareBlock}
use p2pearl.Consensus.Sharechain.{Sharechain}
use p2pearl.P2p.{Node, Msg}
use p2pearl.P2p.Handlers.{dispatch, message, own_share, own_block, step, run, Event}
use p2pearl.P2p.Growth.{IsSound, IsSound-IsStable}
use p2pearl.P2p.Stable.{run-Stable}
use p2pearl.P2p.Network.{
  max_msgs_per_conn, Link, PeerNetwork, Loaded, not_json, other_kind, known, find_link, put_link,
  is_white, too_long, NetworkEvent, opened, read, closed, shared, found, register, drop_link,
  dispatch_link, run_peer, on_network, network_after,
}
use p2pearl.P2p.Links.{IsLink, IsLink-discard, IsLink-put, IsLink-new, find_link-IsLink}
use p2pearl.P2p.Polite.{dispatch_polite}

module _ (sha256 : Bytes → Bytes) (verify : Sharechain → ShareBlock → Str → Bool) (work : ℕ) where
  -- The sharechain is valid, has at least this work behind its tip and holds proved shares only, and
  -- every peer that is connected may be.
  pub record IsNetwork (w : PeerNetwork) : Type 0 where
    pub sound : IsSound sha256 verify work w.node.sharechain
    pub links : All IsLink w.links

  node_after :
      (e : Event) (n : Node)
      → IsSound sha256 verify work n.sharechain
      → IsSound sha256 verify work (step sha256 verify e n).sharechain
  unfolding run
  node_after e n h =
      run-Stable sha256 verify (λ m. IsSound sha256 verify work m.sharechain)
        (IsSound-IsStable sha256 verify work) (e ∷ []) n h

  drop_link-IsNetwork : (id : ℕ) (w : PeerNetwork) → IsNetwork w → IsNetwork (drop_link id w)
  unfolding drop_link
  drop_link-IsNetwork id w k = record { sound = k.sound; links = IsLink-discard id w.links k.links }

  register-IsNetwork : (host : Str) (w : PeerNetwork) → IsNetwork w → IsNetwork (register host w).0
  unfolding register
  register-IsNetwork host w k = record {
    sound = k.sound;
    links = IsLink-new host (w.peer_seq + 1) w.links k.links;
  }

  put_link-IsNetwork :
      (l : Link) (n : Node) (w : PeerNetwork)
      → IsSound sha256 verify work n.sharechain
      → IsLink l
      → (id : ℕ) → IsNetwork w
      → IsNetwork (record w { node = n; links = put_link id l w.links })
  put_link-IsNetwork l n w sound good id k = record {
    sound = sound;
    links = IsLink-put id l w.links good k.links;
  }

  -- A message that was read, from a peer within its count.
  dispatch_known-IsNetwork :
      (loads : Str → Loaded) (now clock : ℕ) (l : Link) (m : Msg) (w : PeerNetwork)
      → IsLink l
      → IsNetwork w
      → IsNetwork (dispatch_link sha256 verify loads now clock l (known m) w).0
  unfolding dispatch_link step
  dispatch_known-IsNetwork loads now clock l m w good k =
      let r = dispatch sha256 verify now clock l.peer m w.node in
      let sound : IsSound sha256 verify work r.1.sharechain =
        node_after (message now clock l.peer m) w.node k.sound in
      let id = l.peer.peer_id in
      let kept : Link = record { peer = r.2; count = l.count } in
      let after : PeerNetwork = record w { node = r.1 } in
      let dropped : IsNetwork (drop_link id after) =
        drop_link-IsNetwork id after (record { sound = sound; links = k.links }) in
      elim (dispatch_polite sha256 verify now clock l.peer m w.node good.polite) [
        | inl gone ↦
            subst IsNetwork
              (sym (
                ap
                  (λ b.
                    if b
                    then record after { links = put_link id kept w.links }
                    else drop_link id after)
                  gone))
              dropped
        | inr polite ↦
            let stays =
              put_link-IsNetwork kept r.1 w sound (record { few = good.few; polite = polite }) id
                k in
            if-elim IsNetwork r.0 (record after { links = put_link id kept w.links })
              (drop_link id after) (λ _. stays) (λ _. dropped)
      ]

  module _ (loads : Str → Loaded) where
    dispatch_link-IsNetwork :
        (now clock : ℕ) (l : Link) (line : Loaded) (w : PeerNetwork)
        → IsLink l
        → IsNetwork w
        → IsNetwork (dispatch_link sha256 verify loads now clock l line w).0
    unfolding dispatch_link
    dispatch_link-IsNetwork now clock l not_json w good k =
        put_link-IsNetwork l w.node w k.sound good l.peer.peer_id k
    dispatch_link-IsNetwork now clock l other_kind w good k =
        put_link-IsNetwork l w.node w k.sound good l.peer.peer_id k
    dispatch_link-IsNetwork now clock l (known m) w good k =
        dispatch_known-IsNetwork loads now clock l m w good k

    no_link :
        (id : ℕ) (line : Str) (now clock : ℕ) (w : PeerNetwork)
        → find_link id w.links ≡ none
        → w ≡ (run_peer sha256 verify loads id line now clock w).0
    unfolding run_peer
    no_link id line now clock w e = ground (arith, e)

    read_link :
        (id : ℕ) (line : Str) (now clock : ℕ) (l : Link) (w : PeerNetwork)
        → find_link id w.links ≡ some l
        → (if too_long line
            then drop_link id w
            else if all is_white line
            then w
            else if ltb max_msgs_per_conn (l.count + 1)
            then drop_link id w
            else (dispatch_link sha256 verify loads now clock
                (record l { count = l.count + 1 })
                (loads line)
                w).0)
          ≡ (run_peer sha256 verify loads id line now clock w).0
    unfolding run_peer
    read_link id line now clock l w e = ground (arith, e)

    run_peer-IsNetwork :
        (id : ℕ) (line : Str) (now clock : ℕ) (w : PeerNetwork)
        → IsNetwork w
        → IsNetwork (run_peer sha256 verify loads id line now clock w).0
    run_peer-IsNetwork id line now clock w k = elim (Option-cases (find_link id w.links)) [
      | inl e ↦ subst IsNetwork (no_link id line now clock w e) k
      | inr (l, e) ↦
          let good = find_link-IsLink id w.links l e k.links in
          let counted : Link = record l { count = l.count + 1 } in
          let dropped = drop_link-IsNetwork id w k in
          let handled : PeerNetwork =
            (dispatch_link sha256 verify loads now clock counted (loads line) w).0 in
          subst IsNetwork (read_link id line now clock l w e) (
            if-elim IsNetwork (too_long line) (drop_link id w) _ (λ _. dropped)
              (λ _.
                if-elim IsNetwork (all is_white line) w _ (λ _. k)
                  (λ _.
                    if-elim IsNetwork (ltb max_msgs_per_conn (l.count + 1)) (drop_link id w) handled
                      (λ _. dropped)
                      (λ within.
                        dispatch_link-IsNetwork now clock counted (loads line) w
                          (record {
                            few = ltb→le max_msgs_per_conn (l.count + 1) within;
                            polite = good.polite;
                          })
                          k))))
    ]

    on_network-IsNetwork :
        (e : NetworkEvent) (w : PeerNetwork)
        → IsNetwork w
        → IsNetwork (on_network sha256 verify loads e w).0
    unfolding on_network step
    on_network-IsNetwork (opened host) w k = register-IsNetwork host w k
    on_network-IsNetwork (read id line now clock) w k = run_peer-IsNetwork id line now clock w k
    on_network-IsNetwork (closed id) w k = drop_link-IsNetwork id w k
    on_network-IsNetwork (shared s proof_b64) w k = record {
      sound = node_after (own_share s proof_b64) w.node k.sound;
      links = k.links;
    }
    on_network-IsNetwork (found block_hex) w k = record {
      sound = node_after (own_block block_hex) w.node k.sound;
      links = k.links;
    }

    -- Whatever connections are opened and closed, whatever lines their peers send and whatever the
    -- daemon broadcasts, a sharechain that is valid, with proved shares only and at least a given
    -- work behind its tip, stays so, and every peer that is connected has sent at most 200000
    -- messages and has fewer strikes than those that drop it, where this held at the start.
    pub network_after-IsNetwork :
        (es : List NetworkEvent) (w : PeerNetwork)
        → IsNetwork w
        → IsNetwork (network_after sha256 verify loads es w)
    unfolding network_after
    network_after-IsNetwork [] w k = k
    network_after-IsNetwork (e ∷ es) w k =
        network_after-IsNetwork es (on_network sha256 verify loads e w).0
          (on_network-IsNetwork e w k)
