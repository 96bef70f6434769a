-- ===== src/Serial/Balance.antt =====
-- Every port that was opened is closed once, or a context still has it.
use vilan_peer.Base.{
  ℕ, suc, ◌+◌, ◌≡◌, refl, ap, arith, Bool, true, false, List, [], ◌∷◌, ◌++◌, Option, none, some,
}
use vilan_peer.Base.{Map, load, store, delete, load-delete, length, Bool-cases, inl, inr, ==-refl}
use vilan_peer.Serial.{
  PortConfig, Data, OpenPort, ClientFrame, data', open_port, close_port, get_config, get_port_list,
  auth, un_auth, ping, other, close_port_ack, open_port_ack, Event, opened, closed, reading, wrote,
  sent, asked, closed_channel, kept_config, Env, ServerContext, close_ports, stop_context,
  chosen_config, process_open, process_msg, close_old, written, stop_each, config_answer, keep_if,
  or_local,
}
use mathlib.Core.List.{Mem, mem-cons_self, mem-cons_of_mem, mem-append_left, mem-append_right}
use vilan_peer.Serial.Contexts.{
  IsUnique, found, length-store, length-delete, IsUnique-store, IsUnique-delete,
}

-- How many ports a list of events opens and closes.
abbrev pub opens : List Event → ℕ
opens [] = 0
opens (opened name ∷ es) = suc (opens es)
opens (_ ∷ es) = opens es

abbrev pub closes : List Event → ℕ
closes [] = 0
closes (closed name ∷ es) = suc (closes es)
closes (_ ∷ es) = closes es

pub opens-append : (es fs : List Event) → opens (es ++ fs) ≡ opens es + opens fs
opens-append [] fs = omega arith
opens-append (opened n ∷ es) fs = omega (arith, opens-append es fs)
opens-append (closed n ∷ es) fs = opens-append es fs
opens-append (reading n ∷ es) fs = opens-append es fs
opens-append (wrote n b ∷ es) fs = opens-append es fs
opens-append (sent c f ∷ es) fs = opens-append es fs
opens-append (asked c f ∷ es) fs = opens-append es fs
opens-append (closed_channel c ∷ es) fs = opens-append es fs
opens-append (kept_config c ∷ es) fs = opens-append es fs

pub closes-append : (es fs : List Event) → closes (es ++ fs) ≡ closes es + closes fs
closes-append [] fs = omega arith
closes-append (opened n ∷ es) fs = closes-append es fs
closes-append (closed n ∷ es) fs = omega (arith, closes-append es fs)
closes-append (reading n ∷ es) fs = closes-append es fs
closes-append (wrote n b ∷ es) fs = closes-append es fs
closes-append (sent c f ∷ es) fs = closes-append es fs
closes-append (asked c f ∷ es) fs = closes-append es fs
closes-append (closed_channel c ∷ es) fs = closes-append es fs
closes-append (kept_config c ∷ es) fs = closes-append es fs

close_ports-count :
    (channel : ℕ) (ports : Map PortConfig)
    → (opens (close_ports channel ports) ≡ 0) × (closes (close_ports channel ports) ≡ length ports)
close_ports-count channel [] = (refl, refl)
close_ports-count channel ((name, conf) ∷ ports) =
    let (a, b) = close_ports-count channel ports in (a, ap suc b)

-- Stop closes every port of a context, and opens none.
pub stop_context-count :
    (ctx : ServerContext)
    → (opens (stop_context ctx) ≡ 0) × (closes (stop_context ctx) ≡ length ctx.port_ctx)
stop_context-count ctx =
    let (a, b) = close_ports-count ctx.handler ctx.port_ctx in
    let es : List Event = close_ports ctx.handler ctx.port_ctx in
    let last : List Event = closed_channel ctx.handler ∷ [] in
    (omega (arith, a, opens-append es last), omega (arith, b, closes-append es last))

-- What a step of a context must do with its ports.
abbrev pub StaysEven : ServerContext → ServerContext × List Event → Type 0
StaysEven ctx (ctx', es) =
    IsUnique ctx'.port_ctx × (opens es + length ctx.port_ctx ≡ closes es + length ctx'.port_ctx)

close_old-count :
    (name : ℕ) (o : Option PortConfig)
    → (opens (close_old name o) ≡ 0) × (closes (close_old name o) ≡ found o)
close_old-count name none = (refl, refl)
close_old-count name (some conf) = (refl, refl)

keep_if-count :
    (b : Bool) (conf : PortConfig) → (opens (keep_if b conf) ≡ 0) × (closes (keep_if b conf) ≡ 0)
keep_if-count true conf = (refl, refl)
keep_if-count false conf = (refl, refl)

written-count :
    (env : Env) (msg : Data) (ctx : ServerContext) (o : Option PortConfig)
    → (opens (written env msg ctx o) ≡ 0) × (closes (written env msg ctx o) ≡ 0)
written-count env msg ctx none = (refl, refl)
written-count env msg ctx (some conf) = elim (Bool-cases msg.need_ack) [
  | inl yes' ↦ rw yes' (refl, refl)
  | inr no' ↦ rw no' (refl, refl)
]

config_answer-count :
    (name : ℕ) (ctx : ServerContext) (o : Option PortConfig)
    → (opens (config_answer name ctx o) ≡ 0) × (closes (config_answer name ctx o) ≡ 0)
config_answer-count name ctx none = (refl, refl)
config_answer-count name ctx (some conf) = (refl, refl)

module _ (env : Env) (ctx : ServerContext) (unique : IsUnique ctx.port_ctx) where
  -- Events that open and close nothing, on the same context.
  quiet-StaysEven : (es : List Event) → (opens es ≡ 0) × (closes es ≡ 0) → StaysEven ctx (ctx, es)
  quiet-StaysEven es (a, b) = (unique, omega (arith, a, b))

  close-StaysEven : (name : ℕ) → StaysEven ctx (process_msg env (close_port (some name)) ctx)
  unfolding process_msg
  close-StaysEven name =
      let old : List Event = close_old name (load name ctx.port_ctx) in
      let answer : List Event = sent ctx.handler (close_port_ack name) ∷ [] in
      let (a, b) = close_old-count name (load name ctx.port_ctx) in
      (
        IsUnique-delete name ctx.port_ctx unique,
        omega (
          arith,
          a,
          b,
          opens-append old answer,
          closes-append old answer,
          length-delete name ctx.port_ctx unique,
        ),
      )

  module _ (msg : OpenPort) (conf : PortConfig) (keep : Bool) where
    abbrev old : List Event
    old = close_old msg.name (load msg.name ctx.port_ctx)

    abbrev ports : Map PortConfig
    ports = delete msg.name ctx.port_ctx

    opened-StaysEven : StaysEven ctx (
      record ctx { port_ctx = store msg.name conf ports },
      old
          ++ (opened msg.name
              ∷ sent ctx.handler (open_port_ack msg.name (some conf))
              ∷ reading msg.name
              ∷ keep_if keep conf),
    )
    opened-StaysEven =
        let answer : List Event =
          opened msg.name
          ∷ sent ctx.handler (open_port_ack msg.name (some conf))
          ∷ reading msg.name
          ∷ keep_if keep conf in
        let (a, b) = close_old-count msg.name (load msg.name ctx.port_ctx) in
        let (c, d) = keep_if-count keep conf in
        let absent : load msg.name ports ≡ none =
          rw (load-delete msg.name msg.name ctx.port_ctx, ==-refl msg.name) refl in
        (
          IsUnique-store msg.name conf ports (IsUnique-delete msg.name ctx.port_ctx unique),
          omega (
            arith,
            a,
            b,
            c,
            d,
            opens-append old answer,
            closes-append old answer,
            length-store msg.name conf ports,
            ap found absent,
            length-delete msg.name ctx.port_ctx unique,
          ),
        )

    refused-StaysEven : StaysEven ctx (
      record ctx { port_ctx = ports },
      old ++ (sent ctx.handler (open_port_ack msg.name none) ∷ keep_if keep conf),
    )
    refused-StaysEven =
        let answer : List Event =
          sent ctx.handler (open_port_ack msg.name none) ∷ keep_if keep conf in
        let (a, b) = close_old-count msg.name (load msg.name ctx.port_ctx) in
        let (c, d) = keep_if-count keep conf in
        (
          IsUnique-delete msg.name ctx.port_ctx unique,
          omega (
            arith,
            a,
            b,
            c,
            d,
            opens-append old answer,
            closes-append old answer,
            length-delete msg.name ctx.port_ctx unique,
          ),
        )

  open-StaysEven : (msg : OpenPort) → StaysEven ctx (process_open env msg ctx)
  open-StaysEven msg = elim (Bool-cases (env.can_open (chosen_config env msg).0)) [
    | inl yes' ↦ rw yes' (opened-StaysEven msg (chosen_config env msg).0 (chosen_config env msg).1)
    | inr no' ↦ rw no' (refused-StaysEven msg (chosen_config env msg).0 (chosen_config env msg).1)
  ]

  -- Whatever the frame, a context holds its old ports, and those that processMsg opened, without those
  -- that it closed.
  pub process_msg-StaysEven : (msg : ClientFrame) → StaysEven ctx (process_msg env msg ctx)
  unfolding process_msg
  process_msg-StaysEven (data' none) = quiet-StaysEven [] (refl, refl)
  process_msg-StaysEven (data' (some msg)) =
      quiet-StaysEven (written env msg ctx (load msg.name ctx.port_ctx))
        (written-count env msg ctx (load msg.name ctx.port_ctx))
  process_msg-StaysEven (open_port none) = quiet-StaysEven [] (refl, refl)
  process_msg-StaysEven (open_port (some msg)) = open-StaysEven msg
  process_msg-StaysEven (close_port none) = quiet-StaysEven [] (refl, refl)
  process_msg-StaysEven (close_port (some name)) = close-StaysEven name
  process_msg-StaysEven (get_config none) = quiet-StaysEven [] (refl, refl)
  process_msg-StaysEven (get_config (some name)) =
      let conf : Option PortConfig = or_local env name (load name ctx.port_ctx) in
      quiet-StaysEven (config_answer name ctx conf) (config_answer-count name ctx conf)
  process_msg-StaysEven get_port_list =
      quiet-StaysEven ((process_msg env get_port_list ctx).1) (refl, refl)
  process_msg-StaysEven (auth given) = quiet-StaysEven [] (refl, refl)
  process_msg-StaysEven un_auth = quiet-StaysEven [] (refl, refl)
  process_msg-StaysEven ping = quiet-StaysEven [] (refl, refl)
  process_msg-StaysEven other = quiet-StaysEven [] (refl, refl)

-- That each port of a context, and each port of each context, is closed in a list of events.
abbrev pub PortsClosed : List Event → Map PortConfig → Type 0
PortsClosed es [] = Unit
PortsClosed es ((name, conf) ∷ ports) = Mem (closed name) es × PortsClosed es ports

abbrev pub EachClosed : List Event → Map ServerContext → Type 0
EachClosed es [] = Unit
EachClosed es ((id, ctx) ∷ m) = PortsClosed es ctx.port_ctx × EachClosed es m

module _ (es fs : List Event) (wider : (e : Event) → Mem e es → Mem e fs) where
  PortsClosed-wider : (ports : Map PortConfig) → PortsClosed es ports → PortsClosed fs ports
  PortsClosed-wider [] h = tt
  PortsClosed-wider ((name, conf) ∷ ports) (here, h) =
      (wider (closed name) here, PortsClosed-wider ports h)

  EachClosed-wider : (m : Map ServerContext) → EachClosed es m → EachClosed fs m
  EachClosed-wider [] h = tt
  EachClosed-wider ((id, ctx) ∷ m) (here, h) =
      (PortsClosed-wider ctx.port_ctx here, EachClosed-wider m h)

close_ports-PortsClosed :
    (channel : ℕ) (ports : Map PortConfig) → PortsClosed (close_ports channel ports) ports
close_ports-PortsClosed channel [] = tt
close_ports-PortsClosed channel ((name, conf) ∷ ports) = (
  mem-cons_self,
  PortsClosed-wider (close_ports channel ports) _ (λ e h. mem-cons_of_mem _ (mem-cons_of_mem _ h))
      ports (close_ports-PortsClosed channel ports),
)

-- Stop closes each port of each context.
pub stop_each-EachClosed : (m : Map ServerContext) → EachClosed (stop_each m) m
stop_each-EachClosed [] = tt
stop_each-EachClosed ((id, ctx) ∷ m) =
    let last : List Event = closed_channel ctx.handler ∷ [] in
    let own : List Event = close_ports ctx.handler ctx.port_ctx in
    (
      PortsClosed-wider own ((own ++ last) ++ stop_each m)
          (λ e h. mem-append_left (stop_each m) (mem-append_left last h)) ctx.port_ctx
          (close_ports-PortsClosed ctx.handler ctx.port_ctx),
      EachClosed-wider (stop_each m) ((own ++ last) ++ stop_each m)
          (λ e h. mem-append_right (own ++ last) h) m (stop_each-EachClosed m),
    )
