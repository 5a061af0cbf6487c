-- ===== src/RemoteQueue/Queueing.antt =====
-- What `queue` of requestmanager/reconciledloader/remotequeue.go does to the items of a queue.
use go_graphsync.Base.{
  ℕ, ◌+◌, ◌<◌, ◌≡◌, refl, sym, ◌∙◌, ap, subst, true, false, List, [], ◌∷◌, ◌++◌, Option, none, some,
  arith, ◌==◌, if◌then◌else◌, Bool-cases, inl, inr, contains, Map, get?, insert, get?-insert,
  get?-insert_self, ==_refl, ==_iff, add64, u64_mod, some_inj,
}
use mathlib.Core.Option
use go_graphsync.RemoteQueue.{Item, block_size, RemoteQueue, queue_item, queue, place, set_next}
use go_graphsync.RemoteQueue.Contents.{AreDistinct, Held, Holds, IsQueue, addresses, bytes, end}

contains-end : (t : ℕ) (es : List Held) → end es ≡ some t → contains t (addresses es) ≡ true
contains-end t [] f = ground arith
contains-end t (e ∷ []) f = ground (arith, ==_refl t)
contains-end t (e ∷ g ∷ es) f = ground (arith, contains-end t (g ∷ es) f)

contains-rest :
    (a : ℕ) (e : Held) (es : List Held)
    → contains a (addresses (e ∷ es)) ≡ false
    → contains a (addresses es) ≡ false
contains-rest a e es f = elim (Bool-cases (e.0 == a)) [
  | inl g ↦ absurd (ground arith)
  | inr g ↦ ground arith
]

apart : (k t : ℕ) (xs : List ℕ) → contains k xs ≡ false → contains t xs ≡ true → (t == k) ≡ false
apart k t xs f g = elim (Bool-cases (t == k)) [
  | inl h ↦ absurd (ground (arith, ap (λ u. contains u xs) ((==_iff t k).0 h)))
  | inr h ↦ h
]

append_item :
    (t a : ℕ) (i : Item) (m : Map Item) (h : Option ℕ) (e : Held) (es : List Held)
    → AreDistinct (e ∷ es)
    → contains a (addresses (e ∷ es)) ≡ false
    → get? a m ≡ some (record i { next = none })
    → end (e ∷ es) ≡ some t
    → Holds m h (e ∷ es)
    → (item : Item) × (get? t m ≡ some item)
      × Holds (insert t (record item { next = some a }) m) h (e ∷ es ++ (a, i) ∷ [])
append_item t a i m h e [] d f g z (start, n, here, rest) =
    let same : e.0 ≡ t = some_inj z in
    let it : Item = record e.1 { next = n } in
    let changed : Item = record it { next = some a } in
    (
      it,
      subst (λ u. get? u m ≡ some it) same here,
      (
        start,
        some a,
        ap (λ u. get? u (insert t changed m)) same ∙ get?-insert_self t changed m,
        (refl, none, ground (arith, get?-insert t a changed m), refl),
      ),
    )
append_item t a i m h e (k ∷ es) d f g z (start, n, here, rest) =
    let (it, there, more) =
      append_item t a i m n k es d.1 (contains-rest a e (k ∷ es) f) g z rest in
    (
      it,
      there,
      (
        start,
        n,
        rw
            (
              get?-insert t e.0 (record it { next = some a }) m,
              apart e.0 t (addresses (k ∷ es)) d.0 (contains-end t (k ∷ es) z),
            )
            here,
        more,
      ),
    )

addresses-append :
    (a : ℕ) (es fs : List Held)
    → contains a (addresses es) ≡ false
    → contains a (addresses fs) ≡ false
    → contains a (addresses (es ++ fs)) ≡ false
addresses-append a [] fs f g = g
addresses-append a (e ∷ es) fs f g = elim (Bool-cases (e.0 == a)) [
  | inl h ↦ absurd (ground arith)
  | inr h ↦ rw h (addresses-append a es fs (contains-rest a e es f) g)
]

differ :
    (k a : ℕ) (es : List Held)
    → (if k == a then true else contains a (addresses es)) ≡ false
    → (if a == k then true else false) ≡ false
differ k a es f = elim (Bool-cases (k == a)) [
  | inl h ↦ absurd (ground arith)
  | inr h ↦ ground arith
]

AreDistinct-append_item :
    (a : ℕ) (i : Item) (es : List Held)
    → AreDistinct es
    → contains a (addresses es) ≡ false
    → AreDistinct (es ++ (a, i) ∷ [])
AreDistinct-append_item a i [] d f = (refl, tt)
AreDistinct-append_item a i (e ∷ es) d f = (
  addresses-append e.0 es ((a, i) ∷ []) d.0 (differ e.0 a es f),
  AreDistinct-append_item a i es d.1 (contains-rest a e es f),
)

end-append_item : (a : ℕ) (i : Item) (es : List Held) → end (es ++ (a, i) ∷ []) ≡ some a
end-append_item a i [] = refl
end-append_item a i (e ∷ []) = refl
end-append_item a i (e ∷ f ∷ es) = end-append_item a i (f ∷ es)

bytes-append_item :
    (a : ℕ) (i : Item) (es : List Held) → bytes (es ++ (a, i) ∷ []) ≡ bytes es + block_size i.block
bytes-append_item a i [] = omega arith
bytes-append_item a i (e ∷ es) = omega (arith, bytes-append_item a i es)

end-some : (e : Held) (es : List Held) → (t : ℕ) × (end (e ∷ es) ≡ some t)
end-some e [] = (e.0, refl)
end-some e (f ∷ es) = end-some f es

-- A new item comes behind those of the queue.
pub queue_item_lem :
    (q : RemoteQueue) (es : List Held) (a : ℕ) (i : Item)
    → IsQueue q es
    → contains a (addresses es) ≡ false
    → get? a q.items ≡ some (record i { next = none })
    → bytes es + block_size i.block < u64_mod
    → (r : RemoteQueue) × (queue_item a (record i { next = none }) q ≡ some r)
      × IsQueue r (es ++ (a, i) ∷ [])
      × ((b : ℕ) → contains b (addresses es) ≡ false → get? b r.items ≡ get? b q.items)
unfolding queue_item place set_next
queue_item_lem q [] a i v f g b = (
  record q { data_size = add64 q.data_size (block_size i.block); tail = some a; head = some a },
  ap (λ h. place h q.tail a (record q { data_size = add64 q.data_size (block_size i.block) }))
      v.held,
  record {
    held = (refl, none, g, refl);
    distinct = (refl, tt);
    ends = refl;
    counted = ground (arith, v.counted);
    bounded = omega arith;
  },
  λ b h. refl,
)
queue_item_lem q (e ∷ es) a i v f g b =
    let (t, z) = end-some e es in
    let (it, there, more) = append_item t a i q.items q.head e es v.distinct f g z v.held in
    let counted : RemoteQueue = record q { data_size = add64 q.data_size (block_size i.block) } in
    (
      record q {
        data_size = add64 q.data_size (block_size i.block);
        items = insert t (record it { next = some a }) q.items;
        tail = some a;
      },
      ap (λ h. place h q.tail a counted) v.held.0
          ∙ ap (λ u. place (some e.0) u a counted) (v.ends ∙ z)
          ∙ ap
              (λ o.
                Option.map (λ m. record counted { items = m; tail = some a })
                  (Option.map (λ item. insert t (record item { next = some a }) q.items) o))
              there,
      record {
        held = more;
        distinct = AreDistinct-append_item a i (e ∷ es) v.distinct f;
        ends = sym (end-append_item a i (e ∷ es));
        counted = ground (arith, v.counted, v.bounded, bytes-append_item a i es);
        bounded = omega (arith, bytes-append_item a i es);
      },
      λ b h.
          rw
            (
              get?-insert t b (record it { next = some a }) q.items,
              apart b t (addresses (e ∷ es)) h (contains-end t (e ∷ es) z),
            )
            refl,
    )

-- New items: of their own addresses, with no next.
abbrev pub AreNew : Map Item → List Held → List Held → Type 0
AreNew m es [] = Unit
AreNew m es (n ∷ ns) =
    (contains n.0 (addresses es) ≡ false)
    × (contains n.0 (addresses ns) ≡ false)
    × (get? n.0 m ≡ some (record n.1 { next = none }))
    × AreNew m es ns

AreNew-kept :
    (m k : Map Item) (es : List Held) (x : Held) (ns : List Held)
    → ((b : ℕ) → contains b (addresses es) ≡ false → get? b k ≡ get? b m)
    → contains x.0 (addresses ns) ≡ false
    → AreNew m es ns
    → AreNew k (es ++ x ∷ []) ns
AreNew-kept m k es x [] h f v = tt
AreNew-kept m k es x (n ∷ ns) h f (a, b, c, v) = (
  addresses-append n.0 es (x ∷ []) a (differ n.0 x.0 ns f),
  b,
  h n.0 a ∙ c,
  AreNew-kept m k es x ns h (contains-rest x.0 n ns f) v,
)

append_nil : (es : List Held) → es ++ [] ≡ es
append_nil [] = refl
append_nil (e ∷ es) = ap (λ w. e ∷ w) (append_nil es)

append_assoc : (xs ys zs : List Held) → (xs ++ ys) ++ zs ≡ xs ++ (ys ++ zs)
append_assoc [] ys zs = refl
append_assoc (x ∷ xs) ys zs = ap (λ w. x ∷ w) (append_assoc xs ys zs)

-- New items come behind those of the queue, in order, as long as the sizes of all blocks stay below
-- 2^64.
pub queue_lem :
    (q : RemoteQueue) (es ns : List Held)
    → IsQueue q es
    → AreNew q.items es ns
    → bytes es + bytes ns < u64_mod
    → (r : RemoteQueue) × (queue (addresses ns) q ≡ some r) × IsQueue r (es ++ ns)
unfolding queue
queue_lem q es [] v w b = (q, refl, rw (append_nil es) v)
queue_lem q es (n ∷ ns) v (f, g, h, w) b =
    let (r, step, good, kept) = queue_item_lem q es n.0 n.1 v f h (omega arith) in
    let (z, steps, fine) =
      queue_lem r (es ++ n ∷ []) ns good (AreNew-kept q.items r.items es n ns kept g w)
        (omega (arith, bytes-append_item n.0 n.1 es)) in
    (z, rw (h, queue) (rw step steps), subst (IsQueue z) (append_assoc es (n ∷ []) ns) fine)
