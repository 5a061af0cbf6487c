-- ===== src/RemoteQueue/Contents.antt =====
-- The items of requestmanager/reconciledloader/remotequeue.go that a queue leads to, in order, and
-- what queue and consume do to them.
use go_graphsync.Base.{
  ℕ, ◌+◌, ◌<◌, ◌≡◌, refl, false, List, [], ◌∷◌, map, Option, none, some, arith, contains, Map, get?,
  insert, get?-insert, u64_mod,
}
use go_graphsync.RemoteQueue.{Item, block_size, RemoteQueue, consume, consume_item, release_last}

-- An address and the item there, whose `next` does not count.
abbrev pub Held : Type 0
Held = ℕ × Item

abbrev pub Holds : Map Item → Option ℕ → List Held → Type 0
Holds m h [] = h ≡ none
Holds m h (e ∷ es) =
    (h ≡ some e.0) × (n : Option ℕ) × (get? e.0 m ≡ some (record e.1 { next = n })) × Holds m n es

abbrev pub addresses : List Held → List ℕ
addresses es = map (λ e. e.0) es

abbrev pub AreDistinct : List Held → Type 0
AreDistinct [] = Unit
AreDistinct (e ∷ es) = (contains e.0 (addresses es) ≡ false) × AreDistinct es

abbrev pub bytes : List Held → ℕ
bytes [] = 0
bytes (e ∷ es) = block_size e.1.block + bytes es

-- The address at the end.
abbrev pub end : List Held → Option ℕ
end [] = none
end (e ∷ []) = some e.0
end (e ∷ f ∷ es) = end (f ∷ es)

abbrev pub Ends : Option ℕ → List Held → Type 0
Ends t [] = Unit
Ends t (e ∷ es) = t ≡ end (e ∷ es)

pub record IsQueue (q : RemoteQueue) (es : List Held) : Type 0 where
  pub held : Holds q.items q.head es
  pub distinct : AreDistinct es
  pub ends : Ends q.tail es
  pub counted : q.data_size ≡ bytes es
  pub bounded : bytes es < u64_mod

Holds-insert :
    (a : ℕ) (i : Item) (m : Map Item) (h : Option ℕ) (es : List Held)
    → contains a (addresses es) ≡ false
    → Holds m h es
    → Holds (insert a i m) h es
Holds-insert a i m h [] f v = v
Holds-insert a i m h (e ∷ es) f (start, n, here, rest) =
    (start, n, ground (arith, get?-insert a e.0 i m), Holds-insert a i m n es (ground arith) rest)

Ends-rest : (t : Option ℕ) (e : Held) (es : List Held) → Ends t (e ∷ es) → Ends t es
Ends-rest t e [] v = tt
Ends-rest t e (f ∷ es) v = v

-- A queue that is not empty is consumed without a fault, and then leads to the items behind its first
-- one.
pub consume_lem :
    (q : RemoteQueue) (e : Held) (es : List Held)
    → IsQueue q (e ∷ es)
    → (r : RemoteQueue) × (consume q ≡ some r) × IsQueue r es
unfolding consume consume_item release_last
consume_lem q e es v =
    let (start, n, here, rest) = v.held in
    let item : Item = record e.1 { next = n } in
    let cleared : Item = record item { block = none } in
    (
      consume_item e.0 item (release_last q),
      rw (start, consume) (rw (here, consume) refl),
      record {
        held = Holds-insert e.0 cleared q.items n es v.distinct.0 rest;
        distinct = v.distinct.1;
        ends = Ends-rest q.tail e es v.ends;
        counted = ground (arith, v.counted, v.bounded);
        bounded = omega (arith, v.bounded);
      },
    )
