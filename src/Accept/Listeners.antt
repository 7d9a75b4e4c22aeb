-- ===== src/Accept/Listeners.antt =====
-- accept_controller.c: opening, arming and closing the listeners.
use lamseryn.Prelude.{
  ℕ, Bool, true, false, Option, none, some, List, [], ◌∷◌, ◌++◌, Bytes, codes, length, leb, ◌==◌,
  if◌then◌else◌,
}
use mathlib.Core.List.{map}
use lamseryn.Accept.{
  op_accept, Ring, Listener, Worker, accept_sqe, get_sqe_batching, post, static_op,
}

-- The part of `struct vhost_t` and of the global options that listening uses.
pub record Vhost : Type 0 where
  pub bind : Bytes
  pub port : ℕ

pub record ListenOptions : Type 0 where
  pub tcp_defer_accept_sec : Option ℕ
  pub listen_backlog : Option ℕ

-- The arguments of `create_listening_socket_bind_port`.
pub record ListenRequest : Type 0 where
  pub addr : Bytes
  pub port : ℕ
  pub backlog : ℕ
  pub defer_accept : ℕ

abbrev pub or_default : Option ℕ → ℕ → ℕ
or_default none d = d
or_default (some n) d = n

abbrev pub bind_addr : Bytes → Bytes
bind_addr [] = codes "0.0.0.0"
bind_addr (b ∷ bs) = b ∷ bs

abbrev pub request_of : ListenOptions → Vhost → ListenRequest
request_of o v = record {
  addr = bind_addr v.bind;
  port = v.port;
  backlog = or_default o.listen_backlog 1024;
  defer_accept = or_default o.tcp_defer_accept_sec 1;
}

-- What `accept_setup_listeners` leaves: the result, the listeners, the sockets asked for, and those
-- closed.
pub record Setup : Type 0 where
  pub ok : Bool
  pub listeners : List Listener
  pub requests : List ListenRequest
  pub closed : List ℕ

abbrev pub max_listeners : ℕ
max_listeners = 32

abbrev pub fds : List Listener → List ℕ
fds ls = map (λ l. l.fd) ls

-- `accept_close_listeners`: the descriptors that are closed; no listener is left.
abbrev pub accept_close_listeners : List Listener → List ℕ
accept_close_listeners ls = fds ls

abbrev pub new_listener : ℕ → Listener
new_listener fd = record { fd = fd; op = none }

abbrev pub fail_setup : List Listener → List ListenRequest → List ℕ → Setup
fail_setup ls requests closed = record {
  ok = false;
  listeners = [];
  requests = requests;
  closed = closed ++ accept_close_listeners ls;
}

-- The loop over the virtual hosts. `opened` has the results of creating sockets, in order, `none`
-- for a negative one.
unfoldable pub setup_from :
    ListenOptions → List Vhost → List (Option ℕ) → List Listener → List ListenRequest → Setup
setup_from o [] opened ls rs = record { ok = true; listeners = ls; requests = rs; closed = [] }
setup_from o (v ∷ vs) opened ls rs =
    let asked = rs ++ request_of o v ∷ [] in
    let skip = setup_from o vs opened ls rs in
    if v.port == 0 then skip else elim opened [
      | [] ↦ fail_setup ls asked []
      | none ∷ more ↦ fail_setup ls asked []
      | some fd ∷ more ↦
          let rest = setup_from o vs more (ls ++ new_listener fd ∷ []) asked in
          if leb max_listeners (length ls) then fail_setup ls asked (fd ∷ []) else rest
    ]

unfoldable pub accept_setup_listeners : ListenOptions → List Vhost → List (Option ℕ) → Setup
unfolding setup_from
accept_setup_listeners o vhosts opened = setup_from o vhosts opened [] []

abbrev pub init_op : Listener → Listener
init_op l = elim l.op [ none ↦ record l { op = some (op_accept l.fd) } | some op ↦ l ]

-- The loop of `accept_arm_startup`: whether an accept was posted, the listeners and the ring.
unfoldable pub arm_listeners : List Listener → Ring → Bool × List Listener × Ring
unfolding get_sqe_batching
arm_listeners [] r = (false, [], r)
arm_listeners (l ∷ ls) r =
    let (got, s) = get_sqe_batching r in
    let armed = post (accept_sqe true l.fd (static_op (init_op l).op)) s in
    let (any, rest, t) = arm_listeners ls (if got then armed else s) in
    (if got then true else any, init_op l ∷ rest, t)

unfoldable pub accept_arm_startup : Worker → Bool × Worker
unfolding arm_listeners
accept_arm_startup w =
    let (armed, ls, r) = arm_listeners w.listeners w.ring in
    (
      armed,
      record w {
        listeners = ls;
        ring = r;
        accept_multishot = if armed then true else w.accept_multishot;
      },
    )
