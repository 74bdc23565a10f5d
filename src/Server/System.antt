-- ===== src/Server/System.antt =====
-- The server among its clients: the fifo of the commands, which any number of clients write to while
-- the server reads (src/server.c, and the calls of `write_cmd` in src/client.c).
use mathlib.Core.Path.{subst}
use so.Base.{
  ℕ, ◌+◌, ◌≤◌, ◌<◌, ◌≡◌, refl, sym, ap, ◌∙◌, inl, inr, Bool-cases, some, List, [], ◌∷◌, ◌++◌,
  append_assoc, arith, take, drop, take-append-drop, Allows, Ensures-done, true, done, fault, ◌⊎◌,
  Ensures,
}
use so.Server.{Server, Place, Round, Ending, goes_on, read_line, step}
use so.Server.Start.{Setup, start}
use so.Server.Invariant.{IsServer}
use so.TaskVec.Ready.{task_limit}
use so.Server.Safety.{Keeps}
use so.Server.Dispatch.{IsSane, IsUntested, reads_tested, step_tested}
use so.Server.Ledger.{Ledger, Order, obey, empty, order_of, ledger_of, Obeys, start-ledger}
use so.Server.Refines.{step-Obeys}
use so.Server.Loop.{step-Keeps, start-IsServer}

-- The server, the bytes in the fifo, all bytes that clients wrote to it and all that the server read
-- from it, and the number of its rounds.
pub record System : Type 0 where
  pub server : Server
  pub fifo : List ℕ
  pub written : List ℕ
  pub received : List ℕ
  pub rounds : ℕ

-- A client writes to the fifo; or the server takes what stands first in it, in a round that goes on.
pub data Move (place : Place) (s : System) : System → Type 0 where
  writes :
      (bytes : List ℕ)
      → Move place s (record s { fifo = s.fifo ++ bytes; written = s.written ++ bytes })
  reads :
      (round : Round) (n : ℕ) {server' : Server}
      → IsSane round
      → round.reading ≡ read_line (take n s.fifo)
      → step place round s.server ≡ done (goes_on, server')
      → Move place s (record s {
        server = server';
        fifo = drop n s.fifo;
        received = s.received ++ take n s.fifo;
        rounds = s.rounds + 1;
      })

abbrev pub initial : Server → System
initial server = record { server = server; fifo = []; written = []; received = []; rounds = 0 }

pub data Reach (place : Place) (first : Server) : System → Type 0 where
  started : Reach place first (initial first)
  later : {s t : System} → Reach place first s → Move place s t → Reach place first t

-- What holds in all these states; a round starts at most one task, however many commands it reads.
abbrev pub IsSystem : Place → System → Type 0
IsSystem place s =
    (s.rounds ≤ task_limit → IsServer place s.server × (s.server.total_tasks ≤ s.rounds))
    × (s.written ≡ s.received ++ s.fifo)

-- A round that goes on does not test the pointer.
goes-IsUntested :
    (place : Place) (round : Round) (s : Server) {server' : Server}
    → step place round s ≡ done (goes_on, server')
    → IsUntested round
goes-IsUntested place round s goes = elim (Bool-cases (reads_tested round.reading)) [
  | inr untested ↦ untested
  | inl tested ↦
      absurd
        (subst (λ m. Ensures m (λ r. Unit {0})) (sym goes ∙ step_tested place round s tested) tt)
]

module _ (place : Place) where
  Move-IsSystem : {s t : System} → Move place s t → IsSystem place s → IsSystem place t
  Move-IsSystem {s} (writes bytes) (served, same) =
      (served, ap (λ l. l ++ bytes) same ∙ append_assoc s.received s.fifo bytes)
  Move-IsSystem {s} (reads round n {server'} sane reading goes) (served, same) = (
    λ small.
        let (h, counted) = served (omega arith) in
        let (h', more) = the_next h (omega arith) in (h', omega arith),
    same
        ∙ ap (λ l. s.received ++ l) (sym (take-append-drop n s.fifo))
        ∙ sym (append_assoc s.received (take n s.fifo) (drop n s.fifo)),
  )
    where
      the_next :
          IsServer place s.server
          → s.server.total_tasks < task_limit
          → Keeps place s.server.total_tasks (goes_on, server')
      the_next h small =
          subst (λ m. Ensures m (Keeps place s.server.total_tasks)) goes
            (step-Keeps place round s.server h sane small
              (goes-IsUntested place round s.server goes))

  Reach-IsSystem :
      {first : Server} {s : System}
      → IsServer place first
      → first.total_tasks ≡ 0
      → Reach place first s
      → IsSystem place s
  Reach-IsSystem h none_yet started = (λ small. (h, omega arith), refl)
  Reach-IsSystem h none_yet (later reach move) =
      Move-IsSystem move (Reach-IsSystem h none_yet reach)

-- The server among any number of clients, which write any bytes to its fifo at any time, from the
-- start of main on, in rounds that go on, each of which reads bytes that stand first in the fifo:
-- nothing, or more than one byte with room for a NUL, where the allocator grants a request of each
-- call and a system call that writes fails or takes all bytes. After fewer than 2 ^ 57 rounds the
-- invariant of the server holds, it started at most one task for each round, what the clients
-- wrote is what the server read and then what is in the fifo, and one more round, of which the
-- same is known, has a memory error just if it reads a command to end a task whose text behind the
-- spaces begins with another character than a minus sign.
pub system-IsServer :
    (setup : Setup) (place : Place) (first : Server) (s : System) (round : Round)
    → start setup ≡ some first
    → Reach place first s
    → s.rounds < task_limit
    → IsSane round
    → IsServer place s.server
      × (s.server.total_tasks ≤ s.rounds)
      × (s.written ≡ s.received ++ s.fifo)
      × ((IsUntested round
            × ((how : Ending) × (server' : Server) × (step place round s.server
                  ≡ done (how, server'))))
          ⊎ ((reads_tested round.reading ≡ true) × (step place round s.server ≡ fault)))
system-IsServer setup place first s round starts reach small sane =
    let (ready, none_yet) = start-IsServer setup place first starts in
    let (served, same) = Reach-IsSystem place ready none_yet reach in
    let (h, counted) = served (omega arith) in
    (
      h,
      counted,
      same,
      elim (Bool-cases (reads_tested round.reading)) [
        | inl tested ↦ inr (tested, step_tested place round s.server tested)
        | inr untested ↦
            let ((how, server'), goes, _) =
              Ensures-done (Keeps place s.server.total_tasks) (step place round s.server)
                (step-Keeps place round s.server h sane (omega arith) untested) in
            inl (untested, (how, server', goes))
      ],
    )

-- The orders of the rounds, oldest first.
abbrev pub orders : {place : Place} {first : Server} {s : System} → Reach place first s → List Order
orders started = []
orders (later reach (writes bytes)) = orders reach
orders (later reach (reads round n sane reading goes)) = orders reach ++ order_of round ∷ []

abbrev pub obey_all : List Order → Ledger → Ledger
obey_all [] l = l
obey_all (order ∷ os) l = obey_all os (obey order l)

obey_all-append :
    (os : List Order) (order : Order) (l : Ledger)
    → obey_all (os ++ order ∷ []) l ≡ obey order (obey_all os l)
obey_all-append [] order l = refl
obey_all-append (o ∷ os) order l = obey_all-append os order (obey o l)

Reach-obeys :
    {place : Place} {first : Server} {s : System}
    → IsServer place first
    → first.total_tasks ≡ 0
    → (reach : Reach place first s) → s.rounds ≤ task_limit
    → ledger_of s.server ≡ obey_all (orders reach) (ledger_of first)
Reach-obeys h none_yet started small = refl
Reach-obeys h none_yet (later reach (writes bytes)) small = Reach-obeys h none_yet reach small
Reach-obeys {place} {first} h none_yet
      (later {s = before} reach (reads round n {server'} sane reading goes)) small =
    let (ready, counted) = (Reach-IsSystem place h none_yet reach).0 (omega arith) in
    let obeys : Obeys (order_of round) before.server (goes_on, server') =
      subst (λ m. Allows m (Obeys (order_of round) before.server)) goes
        (step-Obeys place round before.server ready sane (omega arith)) in
    obeys refl
    ∙ ap (obey (order_of round)) (Reach-obeys h none_yet reach (omega arith))
    ∙ sym (obey_all-append (orders reach) (order_of round) (ledger_of first))

-- The server among any number of clients, which write any bytes to its fifo at any time, from the
-- start of main on, in up to 2 ^ 57 rounds that go on, each of which reads bytes that stand first
-- in the fifo: nothing, or more than one byte with room for a NUL, where the allocator grants a
-- request of each call and a system call that writes fails or takes all bytes. The ids and groups
-- of the tasks that run, in their order, the number of tasks so far and the signals are those of
-- lists that obey the orders of the rounds one after another: a command to execute whose fork
-- makes a child adds the next id with its group behind the others; and all other readings, the
-- commands to end a task among them, change nothing, so that no task ever leaves the array and no
-- signal is sent.
pub system_refines :
    (setup : Setup) (place : Place) (first : Server) (s : System)
    → start setup ≡ some first
    → (reach : Reach place first s) → s.rounds ≤ task_limit
    → ledger_of s.server ≡ obey_all (orders reach) empty
system_refines setup place first s starts reach small =
    let (ready, none_yet) = start-IsServer setup place first starts in
    let nothing_yet = start-ledger setup first starts in
    Reach-obeys ready none_yet reach small ∙ ap (obey_all (orders reach)) nothing_yet
