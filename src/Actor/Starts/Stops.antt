-- ===== src/Actor/Starts/Stops.antt =====
-- When a new actor process of src/coro_actor.cpp stops.
use coro_actor.Prelude.{◌≡◌, sym, ◌∙◌, some, none, ◌↔◌, Option-cases, inl, inr}
use coro_actor.Prelude.Map.{empty}
use coro_actor.Net.{Asio}
use coro_actor.Wire.{StructPack, read_connack}
use coro_actor.Actor.{
  load_library, Process, Host, stopped, config_of, load_functions, handle_actor_notify_proxy,
}
use coro_actor.Actor.Table.{IsMissing, load_functions-IsMissing, load_functions-not_found}
use coro_actor.Actor.Starts.{
  hello, no_library-stopped, no_table-stopped, table-notify, notify-failed, notify-unwritten,
  notify-told, acknowledged-ne-stopped,
}

module _ {Lib Func S : Type 0} (host : Host Lib Func S) (asio : Asio S) (struct_pack : StructPack)
    (p : Process) where
  -- What keeps a process from being started.
  pub data IsStopped : Type 0 where
    no_library : host.dlopen (config_of p).lib ≡ none → IsStopped
    no_service :
        (lib : Lib)
        → host.dlopen (config_of p).lib ≡ some lib
        → IsMissing (host.dlsym lib) (config_of p).services
        → IsStopped
    no_proxy : host.async_connect p.unix_fd ≡ none → IsStopped

  stops : load_library host asio struct_pack p (config_of p) ≡ stopped → IsStopped
  stops e = elim (Option-cases (host.dlopen (config_of p).lib)) [
    | inl o ↦ no_library o
    | inr (lib, o) ↦
        elim (Option-cases (load_functions (host.dlsym lib) (config_of p).services empty)) [
          | inl l ↦
              no_service lib o
                (load_functions-IsMissing (host.dlsym lib) (config_of p).services empty l)
          | inr (m, l) ↦
              let e1 = sym (table-notify host asio struct_pack p (config_of p) lib m o l) ∙ e in
              elim (Option-cases (host.async_connect p.unix_fd)) [
                | inl n ↦ no_proxy n
                | inr (c, k) ↦
                    elim (Option-cases (host.async_write (hello host asio struct_pack p) c)) [
                      | inl w ↦ absurd (cc (e1, notify-unwritten host asio struct_pack p m c k w))
                      | inr (t, w) ↦ absurd (
                          acknowledged-ne-stopped host asio struct_pack p m
                            (read_connack asio struct_pack t)
                            (sym (notify-told host asio struct_pack p m c t k w) ∙ e1))
                    ]
              ]
        ]
  ]

  stopped_stops : IsStopped → load_library host asio struct_pack p (config_of p) ≡ stopped
  stopped_stops (no_library o) = no_library-stopped host asio struct_pack p (config_of p) o
  stopped_stops (no_service lib o m) =
      no_table-stopped host asio struct_pack p (config_of p) lib o
        (load_functions-not_found (host.dlsym lib) (config_of p).services empty m)
  stopped_stops (no_proxy n) = elim (Option-cases (host.dlopen (config_of p).lib)) [
    | inl o ↦ no_library-stopped host asio struct_pack p (config_of p) o
    | inr (lib, o) ↦
        elim (Option-cases (load_functions (host.dlsym lib) (config_of p).services empty)) [
          | inl l ↦ no_table-stopped host asio struct_pack p (config_of p) lib o l
          | inr (m, l) ↦
              table-notify host asio struct_pack p (config_of p) lib m o l
              ∙ notify-failed host asio struct_pack p m n
        ]
  ]

  -- A new actor process stops exactly if its library is not found, a service of its configuration is not
  -- found in the library, or the proxy cannot be connected to; whatever fails later leaves it running.
  pub handle_actor_notify_proxy-stopped_iff :
      (handle_actor_notify_proxy host asio struct_pack p ≡ stopped) ↔ IsStopped
  unfolding handle_actor_notify_proxy
  handle_actor_notify_proxy-stopped_iff = (stops, stopped_stops)
