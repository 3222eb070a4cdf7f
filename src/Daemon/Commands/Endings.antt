-- ===== src/Daemon/Commands/Endings.antt =====
-- cmd/sercond/main.go: what the daemon's run leaves behind, and what asking it for the ports finds.
use sercon.Prelude.{
  ◌≡◌, refl, Bool, true, false, ◌||◌, not, Option, none, some, List, [], ◌∷◌, ◌++◌, maybe-intro,
  if-intro, All, Bytes,
}
use sercon.Proto.Frame.{Frame}
use sercon.Hub.Types.{PortInfo}
use sercon.Daemon.Commands.{
  PortsReply, table_of, query_loop, Effect, binds, starts_manager, logs_start, serves_conn, sleeps,
  closes_listener, closes_manager, removes_socket, Accepted, connection, transient, stopping,
  accept_loop, CaptureCalls, cmd_capture,
}

-- What a process holds: the listener, the socket file, and a manager that runs.
pub record Holdings : Type 0 where
  pub listens : Bool
  pub has_file : Bool
  pub runs : Bool

abbrev pub nothing : Holdings
nothing = record { listens = false; has_file = false; runs = false }

abbrev pub act : Effect → Holdings → Holdings
act binds h = record h { listens = true; has_file = true }
act starts_manager h = record h { runs = true }
act closes_listener h = record h { listens = false }
act closes_manager h = record h { runs = false }
act removes_socket h = record h { has_file = false }
act logs_start h = h
act serves_conn h = h
act sleeps h = h

unfoldable pub replay : List Effect → Holdings → Holdings
replay [] h = h
replay (e ∷ es) h = replay es (act e h)

-- The effects of the loop hold nothing more and nothing less.
accept_loop-neutral :
    (as_ : List Accepted) (es : List Effect) (h : Holdings)
    → replay ((accept_loop as_).0 ++ es) h ≡ replay es h
unfolding accept_loop replay
accept_loop-neutral [] es h = refl
accept_loop-neutral (connection ∷ rest) es h = accept_loop-neutral rest es h
accept_loop-neutral (transient ∷ rest) es h = accept_loop-neutral rest es h
accept_loop-neutral (stopping ∷ rest) es h = refl

-- However `cmdCapture` returns, it then holds neither the listener nor the socket file, and no manager runs.
pub cmd_capture-Released :
    (c : CaptureCalls) → (cmd_capture c).1 ≡ true → replay (cmd_capture c).0 nothing ≡ nothing
unfolding cmd_capture replay
cmd_capture-Released c =
    maybe-intro Released _ _ c.socket (λ _ _. refl)
      (λ sock _.
        if-intro Released (not c.configured || not c.has_bound) _ _ (λ _ _. refl)
          (λ _.
            if-intro Released (not c.manager_made || not c.manager_starts) _ _ (λ _ _. refl)
              (λ _.
                if-intro Released (accept_loop c.accepted).1 _ _
                  (λ _ _.
                    accept_loop-neutral c.accepted
                      (closes_listener ∷ closes_manager ∷ removes_socket ∷ []) _)
                  (λ _ over. cc over))))
  where
    Released : List Effect × Bool → Type 0
    Released r = r.1 ≡ true → replay r.0 nothing ≡ nothing

-- The first table that comes is the answer, whatever other frames came before it.
pub query_loop-first :
    (unmarshal : Bytes → Option PortsReply) (fs : List Frame) (f : Frame) (rest : List Frame)
    (t : List PortInfo)
    → All (λ g. table_of unmarshal g ≡ none) fs
    → table_of unmarshal f ≡ some t
    → query_loop unmarshal (fs ++ f ∷ rest) ≡ some t
unfolding query_loop
query_loop-first unmarshal [] f rest t h e = rw (e, query_loop) refl
query_loop-first unmarshal (g ∷ fs) f rest t h e =
    rw (h.0, query_loop) (query_loop-first unmarshal fs f rest t h.1 e)
