-- ===== src/PeerManager/Tests.antt =====
-- Runs and instances for peermanager/peermanager.go.
use go_graphsync.Base.{delete, ◌+◌, ◌≡◌, refl, true, false, List, [], ◌∷◌, some, get?, insert}
use go_graphsync.PeerManager.{
  Factory, Operation, connect, disconnect, use_process, operate_all, connected_peers, startup,
  shutdown,
}
use go_graphsync.PeerManager.Counting.{
  refs, has_process, connections_after, runs_after, operate_all-counts,
}

abbrev factory : Factory
factory = record { create = λ p. p + 100; is_peer_process = λ n. true }

abbrev operations : List Operation
operations = connect 1 ∷ use_process 2 ∷ connect 1 ∷ disconnect 1 ∷ disconnect 2 ∷ []

operate_all-counts_example :
    (refs 1 (operate_all factory operations []).0 ≡ connections_after 1 operations 0)
    × (runs_after 1 (operate_all factory operations []).1 false
        ≡ some (has_process factory 1 (operate_all factory operations []).0))
operate_all-counts_example = operate_all-counts factory 1 operations

effects_run : (operate_all factory operations []).1 ≡ startup 1 ∷ startup 2 ∷ shutdown 2 ∷ []
unfolding operate_all get? insert
effects_run = refl

one_peer_left : connected_peers (operate_all factory operations []).0 ≡ 1 ∷ []
unfolding operate_all get? insert connected_peers delete
one_peer_left = refl
