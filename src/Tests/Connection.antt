-- ===== src/Tests/Connection.antt =====
-- The WebSocket of a component whose constructor never throws.
use settlr.Prelude.{ℕ, ◌≤◌, ◌≡◌, refl, Bool, true, false, [], ◌∷◌}
use settlr.Ui.Connection.{
  Hook, fresh, without, without_timeout, connect, mount, unmount, on_open, on_close, on_timeout,
  Failure, Failures, Life,
}
use settlr.Ui.Connection.Attempts.{mount-attempts}
use settlr.Ui.Connection.Single.{IsSingle, mount-IsSingle}

abbrev constructs : ℕ → Bool
constructs n = true

abbrev mounted : Hook
mounted = mount constructs fresh

abbrev retried : Hook
retried = on_timeout constructs 0 (on_close constructs 0 mounted)

has_first : Failure constructs mounted (on_close constructs 0 mounted)
unfolding mount connect
has_first = Failure.closes 0 refl

retries_first : Failure constructs (on_close constructs 0 mounted) retried
unfolding mount connect on_close
retries_first = Failure.fires 0 refl

mount-attempts_example : retried.attempts ≤ 10
mount-attempts_example =
    mount-attempts constructs fresh
      (Failures.one_more (Failures.one_more Failures.none_yet has_first) retries_first)

mount-IsSingle_example : IsSingle constructs retried
mount-IsSingle_example =
    mount-IsSingle constructs (Life.fails (Life.fails Life.begins has_first) retries_first)

-- A component that mounts, unmounts and mounts again before its first socket has closed: the close
-- event of that socket finds the component mounted, and a second socket is opened beside the one
-- that the second mount opened.
remounted : Hook
remounted = on_timeout constructs 0 (
    on_close constructs 0
      (on_open constructs (mount constructs (unmount constructs (mount constructs fresh)))))

two_sockets : (remounted.sockets ≡ 2 ∷ 1 ∷ []) × (remounted.connected ≡ false)
unfolding remounted connect mount unmount on_open on_close on_timeout without without_timeout
two_sockets = (refl, refl)
