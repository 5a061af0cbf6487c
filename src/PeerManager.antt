-- ===== src/PeerManager.antt =====
-- peermanager/peermanager.go: a process for each peer with connections, counted by reference. A
-- process is a number that the factory gives for the peer; which processes have Startup and Shutdown
-- (the PeerProcess interface) is a parameter too, and their calls are a list, in order. Each method
-- holds the lock where it changes the map. The count of a process that only GetProcess made is 0, and a
-- count below 0 is not told from 0, since both end the process.
pub mod Counting
mod Tests
use go_graphsync.Base.{
  ℕ, ◌+◌, ◌-◌, Bool, true, false, List, [], ◌∷◌, ◌++◌, Option, none, some, ltb, if◌then◌else◌, Map,
  get?, insert, delete, keys,
}

pub record Instance : Type 0 where
  pub refcnt : ℕ
  pub process : ℕ

pub record Factory : Type 0 where
  pub create : ℕ → ℕ
  pub is_peer_process : ℕ → Bool

pub data Effect : Type 0 where
  startup shutdown : ℕ → Effect

abbrev pub Peers : Type 0
Peers = Map Instance

unfoldable pub connected_peers : Peers → List ℕ
connected_peers m = keys m

-- getOrCreate, with the instance.
unfoldable pub get_or_create : Factory → ℕ → Peers → Instance × Peers × List Effect
get_or_create f p m = elim (get? p m) [
  | some i ↦ (i, m, [])
  | none ↦
      let i : Instance = record { refcnt = 0; process = f.create p } in
      (i, insert p i m, if f.is_peer_process i.process then startup p ∷ [] else [])
]

unfoldable pub connected : Factory → ℕ → Peers → Peers × List Effect
unfolding get_or_create
connected f p m =
    let (i, n, es) = get_or_create f p m in (insert p (record i { refcnt = i.refcnt + 1 }) n, es)

unfoldable pub disconnected : Factory → ℕ → Peers → Peers × List Effect
disconnected f p m = elim (get? p m) [
  | none ↦ (m, [])
  | some i ↦
      let left = i.refcnt - 1 in
      if ltb 0 left
      then (insert p (record i { refcnt = left }) m, [])
      else (delete p m, if f.is_peer_process i.process then shutdown p ∷ [] else [])
]

unfoldable pub get_process : Factory → ℕ → Peers → ℕ × Peers × List Effect
unfolding get_or_create
get_process f p m = elim (get? p m) [
  | some i ↦ (i.process, m, [])
  | none ↦ let (i, n, es) = get_or_create f p m in (i.process, n, es)
]

pub data Operation : Type 0 where
  connect disconnect use_process : ℕ → Operation

unfoldable pub operate : Factory → Operation → Peers → Peers × List Effect
unfolding connected disconnected get_process
operate f (connect p) m = connected f p m
operate f (disconnect p) m = disconnected f p m
operate f (use_process p) m = let (i, n, es) = get_process f p m in (n, es)

unfoldable pub operate_all : Factory → List Operation → Peers → Peers × List Effect
unfolding operate
operate_all f [] m = (m, [])
operate_all f (o ∷ os) m =
    let (n, es) = operate f o m in let (k, fs) = operate_all f os n in (k, es ++ fs)
