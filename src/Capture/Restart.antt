-- ===== src/Capture/Restart.antt =====
-- Which capture loops of backend/internal/capture/manager.go end, in every order of the calls and of the
-- loops' steps.
use secure_mail_scope_sih.Common.{
  ℕ, ◌+◌, ◌-◌, ◌<◌, ◌≡◌, refl, ap, ◌⊎◌, inl, inr, true, false, List, [], ◌∷◌, arith, any, ◌==◌, All,
  Text, Bool-cases,
}
use secure_mail_scope_sih.Capture.{
  Status, active, stopped, error, Manager, new_manager, is_active, start, is_closed, stop,
  set_filter, Outcome, tcpdump_error, no_capture, header_only, move_failed, chunk, look,
  finish_chunk,
}

-- A call of the API, or a step of a loop that runs.
pub data Move : Manager → Manager → Type 0 where
  started : (iface : Text) (now : ℕ) (m : Manager) → Move m (start iface now m).0
  stop_called : (m : Manager) → Move m (stop m).0
  filtered : (filter : Text) (m : Manager) → Move m (set_filter filter m)
  looked : (m : Manager) → 0 < m.loops → Move m (look m).0
  finished : (o : Outcome) (m : Manager) → 0 < m.loops → Move m (finish_chunk o m).0

pub data Runs : Manager → Type 0 where
  begin : Runs new_manager
  move : {m n : Manager} → Runs m → Move m n → Runs n

-- The channels are numbered below the next one; that of an active capture is open, and that of a stopped
-- one is closed unless no loop runs.
record IsSound (m : Manager) : Type 0 where
  known : All (λ c. c < m.next_chan) m.closed
  current : m.stop_chan < m.next_chan
  open_chan : m.status ≡ active → any (λ d. d == m.stop_chan) m.closed ≡ false
  shut_chan : m.status ≡ stopped → (m.loops ≡ 0) ⊎ (any (λ d. d == m.stop_chan) m.closed ≡ true)

fresh-open : (n : ℕ) (cs : List ℕ) → All (λ c. c < n) cs → any (λ d. d == n) cs ≡ false
unfolding any
fresh-open n [] h = refl
fresh-open n (c ∷ cs) h = ground (arith, fresh-open n cs h.1)

later : (n : ℕ) (cs : List ℕ) → All (λ c. c < n) cs → All (λ c. c < n + 1) cs
later n [] h = tt
later n (c ∷ cs) h = (omega (arith, h.0), later n cs h.1)

status-active : (s : Status) → is_active s ≡ true → s ≡ active
unfolding is_active
status-active active e = refl
status-active stopped e = cc
status-active error e = cc

fresh-IsSound :
    (iface : Text) (now : ℕ) (m : Manager)
    → is_active m.status ≡ false
    → IsSound m
    → IsSound (start iface now m).0
unfolding start
fresh-IsSound iface now m e h = rw e (record {
  known = later m.next_chan m.closed h.known;
  current = omega arith;
  open_chan = λ _. fresh-open m.next_chan m.closed h.known;
  shut_chan = λ e'. cc e';
})

start-IsSound : (iface : Text) (now : ℕ) (m : Manager) → IsSound m → IsSound (start iface now m).0
unfolding start
start-IsSound iface now m h = elim (Bool-cases (is_active m.status)) [
  | inl e ↦ rw e h
  | inr e ↦ fresh-IsSound iface now m e h
]

stopping-IsSound : (m : Manager) → is_active m.status ≡ true → IsSound m → IsSound (stop m).0
unfolding stop is_closed any
stopping-IsSound m e h =
    let open_now = h.open_chan (status-active m.status e) in
    rw (e, open_now)
      (record {
        known = (h.current, h.known);
        current = h.current;
        open_chan = λ e'. cc e';
        shut_chan = λ _. inr (ground arith);
      })

stop-IsSound : (m : Manager) → IsSound m → IsSound (stop m).0
unfolding stop
stop-IsSound m h = elim (Bool-cases (is_active m.status)) [
  | inl e ↦ stopping-IsSound m e h
  | inr e ↦ rw e h
]

-- One loop less.
fewer-IsSound : (m : Manager) → IsSound m → IsSound (record m { loops = m.loops - 1 })
fewer-IsSound m h = record {
  known = h.known;
  current = h.current;
  open_chan = h.open_chan;
  shut_chan = λ e. elim (h.shut_chan e) [
    | inl none_left ↦ inl (omega (arith, none_left))
    | inr shut ↦ inr shut
  ];
}

look-IsSound : (m : Manager) → IsSound m → IsSound (look m).0
unfolding look
look-IsSound m h = elim (Bool-cases (is_closed m.stop_chan m)) [
  | inl e ↦ rw e (fewer-IsSound m h)
  | inr e ↦ rw e h
]

finish_chunk-IsSound : (o : Outcome) (m : Manager) → IsSound m → IsSound (finish_chunk o m).0
unfolding finish_chunk
finish_chunk-IsSound tcpdump_error m h = h
finish_chunk-IsSound header_only m h = h
finish_chunk-IsSound move_failed m h = h
finish_chunk-IsSound (chunk packets bytes) m h = record {
  known = h.known;
  current = h.current;
  open_chan = h.open_chan;
  shut_chan = h.shut_chan;
}
finish_chunk-IsSound no_capture m h = record {
  known = h.known;
  current = h.current;
  open_chan = λ e. cc e;
  shut_chan = λ e. cc e;
}

Runs-IsSound : {m : Manager} → Runs m → IsSound m
unfolding new_manager set_filter
Runs-IsSound begin = record {
  known = tt;
  current = omega arith;
  open_chan = λ e. cc e;
  shut_chan = λ _. inl refl;
}
Runs-IsSound (move r (started iface now m)) = start-IsSound iface now m (Runs-IsSound r)
Runs-IsSound (move r (stop_called m)) = stop-IsSound m (Runs-IsSound r)
Runs-IsSound (move r (filtered filter m)) =
    let h = Runs-IsSound r in
    record {
      known = h.known;
      current = h.current;
      open_chan = h.open_chan;
      shut_chan = h.shut_chan;
    }
Runs-IsSound (move r (looked m _)) = look-IsSound m (Runs-IsSound r)
Runs-IsSound (move r (finished o m _)) = finish_chunk-IsSound o m (Runs-IsSound r)

-- In every order of calls and of steps of the loops: while the capture is active no loop that looks at
-- the stop channel ends, and while it is stopped every loop that still runs ends at its next look.
pub Runs-look :
    {m : Manager}
    → Runs m
    → (m.status ≡ active → look m ≡ (m, true))
      × (m.status ≡ stopped → 0 < m.loops → (look m).1 ≡ false)
unfolding look is_closed
Runs-look {m} r =
    let h = Runs-IsSound r in
    (
      λ e. rw (h.open_chan e) refl,
      λ e some_left. elim (h.shut_chan e) [
        | inl none_left ↦ absurd (omega (arith, none_left, some_left))
        | inr shut ↦ rw shut refl
      ],
    )

stopped-facts :
    (m : Manager) → m.status ≡ active → ((stop m).0.status ≡ stopped) × ((stop m).0.loops ≡ m.loops)
unfolding stop is_active
stopped-facts m e = rw e (refl, refl)

started-facts :
    (iface : Text) (now : ℕ) (m : Manager)
    → m.status ≡ stopped
    → ((start iface now m).0.status ≡ active) × ((start iface now m).0.loops ≡ m.loops + 1)
unfolding start is_active
started-facts iface now m e = rw e (refl, refl)

-- A stop and a start at once leave the loops of the stopped capture running: in every order of calls and
-- steps before, a loop that looks at the stop channel after them goes on, and there is one loop more.
pub look-start-stop :
    (iface : Text) (now : ℕ) {m : Manager}
    → Runs m
    → m.status ≡ active
    → let m' = (start iface now (stop m).0).0 in ((look m').1 ≡ true) × (m'.loops ≡ m.loops + 1)
look-start-stop iface now {m} r e =
    let halted = stopped-facts m e in
    let again = started-facts iface now (stop m).0 halted.0 in
    let goes_on =
      (Runs-look (move (move r (stop_called m)) (started iface now (stop m).0))).0 again.0 in
    (ap (λ l. l.1) goes_on, omega (arith, again.1, halted.1))
