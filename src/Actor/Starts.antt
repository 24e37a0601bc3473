-- ===== src/Actor/Starts.antt =====
-- When a new actor process serves, and when it stops.
pub mod Stops
use coro_actor.Prelude.{
  ◌≡◌, refl, sym, ap, ◌∙◌, true, Option, some, none, Bytes, ◌↔◌, Bool-cases, Option-cases, if-both,
  if◌then◌else◌, ◌≢◌, inl, inr,
}
use coro_actor.Prelude.Map.{Map, empty}
use coro_actor.Packet.{Connack, connack, connect, request, response, other}
use coro_actor.Net.{Asio}
use coro_actor.Wire.{StructPack, Parsed, parsed, unasserted, write_connect, read_connack}
use coro_actor.Config.{ActorConfig}
use coro_actor.Actor.{
  load_library, Process, Host, Notified, stopped, gave_up, serving, config_of, load_functions,
  acknowledged, notify, handle_actor_notify_proxy,
}
use coro_actor.Actor.Table.{
  IsLoaded, IsMissing, load_functions-IsLoaded, load_functions-loaded, load_functions-IsMissing,
  load_functions-not_found,
}

module _ {Lib Func S : Type 0} (host : Host Lib Func S) (asio : Asio S) (struct_pack : StructPack)
    (p : Process) where
  -- The bytes that tell the proxy of the process.
  abbrev pub hello : Bytes
  hello = write_connect asio struct_pack (record { pid = p.pid; name = p.actor_name })

  -- All that has gone well where the process serves: its library and its services are found, and the proxy
  -- has answered.
  pub record IsStarted (table : Map Bytes Func) (s : S) : Type 0 where
    pub lib : Lib
    pub opened : host.dlopen (config_of p).lib ≡ some lib
    pub loaded : IsLoaded (host.dlsym lib) (config_of p).services empty table
    pub connection : S
    pub connected : host.async_connect p.unix_fd ≡ some connection
    pub told : S
    pub wrote : host.async_write hello connection ≡ some told
    pub ack : Connack
    pub answered : read_connack asio struct_pack told ≡ some (parsed (connack ack), s)
    pub accepted : ack.result ≡ true

  no_library-stopped :
      (cfg : ActorConfig)
      → host.dlopen cfg.lib ≡ none
      → load_library host asio struct_pack p cfg ≡ stopped
  no_library-stopped cfg e = rw (e, load_library) refl

  no_table-stopped :
      (cfg : ActorConfig) (lib : Lib)
      → host.dlopen cfg.lib ≡ some lib
      → load_functions (host.dlsym lib) cfg.services empty ≡ none
      → load_library host asio struct_pack p cfg ≡ stopped
  no_table-stopped cfg lib e f = rw (e, f, load_library) refl

  table-notify :
      (cfg : ActorConfig) (lib : Lib) (table : Map Bytes Func)
      → host.dlopen cfg.lib ≡ some lib
      → load_functions (host.dlsym lib) cfg.services empty ≡ some table
      → load_library host asio struct_pack p cfg ≡ notify host asio struct_pack p table
  table-notify cfg lib table e f = rw (e, f, load_library) refl

  -- The answer with which a process serves.
  record IsAccepting (m table : Map Bytes Func) (r : Option (Parsed × S)) (s : S) : Type 0 where
    pub ack : Connack
    pub answered : r ≡ some (parsed (connack ack), s)
    pub accepted : ack.result ≡ true
    pub same : m ≡ table

  result-IsAccepting :
      (m table : Map Bytes Func) (c : Connack) (t s : S)
      → acknowledged host asio struct_pack m (some (parsed (connack c), t)) ≡ serving table s
      → IsAccepting m table (some (parsed (connack c), t)) s
  result-IsAccepting m table c t s e = elim (Bool-cases c.result) [
    | inl yes_result ↦
        let same : serving m t ≡ serving table s =
          sym (ap (λ b. if b then serving m t else gave_up) yes_result) ∙ e in
        record { ack = c; answered = cc same; accepted = yes_result; same = cc same }
    | inr no_result ↦ absurd (cc (sym (ap (λ b. if b then serving m t else gave_up) no_result) ∙ e))
  ]

  acknowledged-IsAccepting :
      (m table : Map Bytes Func) (r : Option (Parsed × S)) (s : S)
      → acknowledged host asio struct_pack m r ≡ serving table s
      → IsAccepting m table r s
  acknowledged-IsAccepting m table none s e = absurd (cc)
  acknowledged-IsAccepting m table (some (unasserted, t)) s e = absurd (cc)
  acknowledged-IsAccepting m table (some (parsed (connack c), t)) s e =
      result-IsAccepting m table c t s e
  acknowledged-IsAccepting m table (some (parsed (connect c), t)) s e = absurd (cc)
  acknowledged-IsAccepting m table (some (parsed (request c), t)) s e = absurd (cc)
  acknowledged-IsAccepting m table (some (parsed (response c), t)) s e = absurd (cc)
  acknowledged-IsAccepting m table (some (parsed (other c), t)) s e = absurd (cc)

  acknowledged-ne-stopped :
      (m : Map Bytes Func) (r : Option (Parsed × S))
      → acknowledged host asio struct_pack m r ≢ stopped
  acknowledged-ne-stopped m none e = cc
  acknowledged-ne-stopped m (some (unasserted, t)) e = cc
  acknowledged-ne-stopped m (some (parsed (connack c), t)) e =
      if-both (λ x. x ≢ stopped) c.result (λ f. cc) (λ f. cc) e
  acknowledged-ne-stopped m (some (parsed (connect c), t)) e = cc
  acknowledged-ne-stopped m (some (parsed (request c), t)) e = cc
  acknowledged-ne-stopped m (some (parsed (response c), t)) e = cc
  acknowledged-ne-stopped m (some (parsed (other c), t)) e = cc

  told_of : Map Bytes Func → Option S → Notified Func S
  told_of m none = gave_up
  told_of m (some t) = acknowledged host asio struct_pack m (read_connack asio struct_pack t)

  notify-connected :
      (m : Map Bytes Func) (c : S)
      → host.async_connect p.unix_fd ≡ some c
      → notify host asio struct_pack p m ≡ told_of m (host.async_write hello c)
  unfolding told_of
  notify-connected m c e = rw (e, notify) refl

  notify-failed :
      (m : Map Bytes Func)
      → host.async_connect p.unix_fd ≡ none
      → notify host asio struct_pack p m ≡ stopped
  notify-failed m e = rw (e, notify) refl

  notify-told :
      (m : Map Bytes Func) (c t : S)
      → host.async_connect p.unix_fd ≡ some c
      → host.async_write hello c ≡ some t
      → notify host asio struct_pack p m
        ≡ acknowledged host asio struct_pack m (read_connack asio struct_pack t)
  unfolding told_of
  notify-told m c t e f = notify-connected m c e ∙ ap (told_of m) f

  notify-unwritten :
      (m : Map Bytes Func) (c : S)
      → host.async_connect p.unix_fd ≡ some c
      → host.async_write hello c ≡ none
      → notify host asio struct_pack p m ≡ gave_up
  unfolding told_of
  notify-unwritten m c e f = notify-connected m c e ∙ ap (told_of m) f

  starts :
      (table : Map Bytes Func) (s : S)
      → load_library host asio struct_pack p (config_of p) ≡ serving table s
      → IsStarted table s
  starts table s e = elim (Option-cases (host.dlopen (config_of p).lib)) [
    | inl o ↦ absurd (cc (e, no_library-stopped (config_of p) o))
    | inr (lib, o) ↦
        elim (Option-cases (load_functions (host.dlsym lib) (config_of p).services empty)) [
          | inl l ↦ absurd (cc (e, no_table-stopped (config_of p) lib o l))
          | inr (m, l) ↦
              let e1 = sym (table-notify (config_of p) lib m o l) ∙ e in
              elim (Option-cases (host.async_connect p.unix_fd)) [
                | inl n ↦ absurd (cc (e1, notify-failed m n))
                | inr (c, k) ↦ elim (Option-cases (host.async_write hello c)) [
                  | inl w ↦ absurd (cc (e1, notify-unwritten m c k w))
                  | inr (t, w) ↦
                      let a =
                        acknowledged-IsAccepting m table (read_connack asio struct_pack t) s
                          (sym (notify-told m c t k w) ∙ e1) in
                      record {
                        lib = lib;
                        opened = o;
                        loaded =
                            load_functions-IsLoaded (host.dlsym lib) (config_of p).services empty
                              table (l ∙ ap some a.same);
                        connection = c;
                        connected = k;
                        told = t;
                        wrote = w;
                        ack = a.ack;
                        answered = a.answered;
                        accepted = a.accepted;
                      }
                ]
              ]
        ]
  ]

  started_serves :
      (table : Map Bytes Func) (s : S)
      → IsStarted table s
      → load_library host asio struct_pack p (config_of p) ≡ serving table s
  started_serves table s h =
      let l =
        load_functions-loaded (host.dlsym h.lib) (config_of p).services empty table h.loaded in
      table-notify (config_of p) h.lib table h.opened l
      ∙ notify-told table h.connection h.told h.connected h.wrote
      ∙ ap (acknowledged host asio struct_pack table) h.answered
      ∙ ap (λ b. if b then serving table s else gave_up) h.accepted

  -- A new actor process serves its messages with a table of services exactly if its library is found with
  -- all the services of its configuration, the proxy is connected to, has been told the process's pid and
  -- name, and has answered with the result true; the table has for each of these services the function
  -- that `dlsym` has found, and no other service.
  pub handle_actor_notify_proxy-serving_iff :
      (table : Map Bytes Func) (s : S)
      → (handle_actor_notify_proxy host asio struct_pack p ≡ serving table s) ↔ IsStarted table s
  unfolding handle_actor_notify_proxy
  handle_actor_notify_proxy-serving_iff table s = (starts table s, started_serves table s)
