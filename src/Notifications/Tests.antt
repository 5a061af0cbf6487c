-- ===== src/Notifications/Tests.antt =====
-- Runs and instances for notifications/publisher.go.
use go_graphsync.Base.{◌≡◌, refl, ◌||◌, false, List, [], ◌∷◌, some, get?, insert, delete}
use go_graphsync.Notifications.{
  SubscriberRegistry, Command, subscribe, publish, close_topic, unsub_all, shut_down, carry_out,
  start, empty_registry, on_next, on_close,
}
use go_graphsync.Notifications.Listening.{IsInverse, listens, follows, told_after}
use go_graphsync.Notifications.Commands.{
  listening, subscribes, listening_after, carry_out-IsInverse, carry_out-notifies,
  start-subscribers,
}

abbrev commands : List Command
commands =
    subscribe 1 7 ∷ subscribe 1 8 ∷ publish 1 5 ∷ unsub_all 7 ∷ close_topic 1 ∷ shut_down ∷ []

-- Two subscribers of one topic.
abbrev two_listen : SubscriberRegistry
unfolding carry_out empty_registry
two_listen = (carry_out (subscribe 1 8) (carry_out (subscribe 1 7) empty_registry).0).0

two_listen-IsInverse : IsInverse two_listen
unfolding listens follows empty_registry get? two_listen carry_out
two_listen-IsInverse =
    carry_out-IsInverse (subscribe 1 8) (carry_out (subscribe 1 7) empty_registry).0
      (carry_out-IsInverse (subscribe 1 7) empty_registry (λ u v. refl))

carry_out-notifies_example :
    (listens 1 7 (carry_out (unsub_all 7) two_listen).0
      ≡ listening 1 7 (unsub_all 7) (listens 1 7 two_listen))
    × (told_after 1 7
          (carry_out (unsub_all 7) two_listen).1
          (subscribes 1 7 (unsub_all 7) || listens 1 7 two_listen)
        ≡ some (listens 1 7 (carry_out (unsub_all 7) two_listen).0))
carry_out-notifies_example = carry_out-notifies 1 7 (unsub_all 7) two_listen two_listen-IsInverse

start-subscribers_example :
    listens 1 8 (start commands empty_registry).0 ≡ listening_after 1 8 commands false
start-subscribers_example = start-subscribers 1 8 commands

told_in_order :
    (start commands empty_registry).1
    ≡ on_next 7 1 5 ∷ on_next 8 1 5 ∷ on_close 7 1 ∷ on_close 8 1 ∷ []
unfolding start empty_registry get? insert delete
told_in_order = refl
