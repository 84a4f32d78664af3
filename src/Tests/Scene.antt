-- ===== src/Tests/Scene.antt =====
-- A driver that finds one request: the state in which checkBuf runs, and the one in which its
-- interrupt comes.
use sddf_i2c_driver.Prelude.{
  ℕ, ◌+◌, ◌≡◌, refl, sym, ◌∙◌, ap, subst, List, [], ◌∷◌, arith, Bool, true, false, some,
}
use sddf_i2c_driver.Ring.{Desc, desc}
use sddf_i2c_driver.Ring.Refine.{Holds}
use sddf_i2c_driver.Ring.Handle.{HandleHolds}
use sddf_i2c_driver.Transport.{
  Transport, i2c_transport_init, buf_addr, alloc_req_buf, req_ring, ret_ring,
}
use sddf_i2c_driver.Transport.Lens.{m2}
use sddf_i2c_driver.Transport.Calls.{alloc_req_buf-ok}
use sddf_i2c_driver.Transport.Pool.{share, length-share, Free, i2c_transport_init-Free}
use sddf_i2c_driver.Interface.{i2c_get_error, i2c_halt}
use sddf_i2c_driver.Driver.{Driver, check_buf, begin_work, i2cirq, complete}
use sddf_i2c_driver.Driver.Batch.{Pending}
use sddf_i2c_driver.Driver.Load.Spec.{done, plain, writes}
use sddf_i2c_driver.Token.{translate, direction}
use sddf_i2c_driver.System.BusInv.{Keeps, load-some}
use sddf_i2c_driver.System.Ledger.{free-used}
use sddf_i2c_driver.System.Work.{Begun, CanBegin, CanBegin-Begun, check_buf-begins}
use sddf_i2c_driver.System.Take.{at_transport}
use sddf_i2c_driver.System.Irq.{finished, answered, i2cirq-finished}
use sddf_i2c_driver.System.Start.{Region, pools, pools-NoNull, all_free, fresh}
use sddf_i2c_driver.Tests.Data.{base, blank, driver₀, idle, one_ring, small, message, loading, busy}

pub region : Region base
region = record { above = omega arith; below = omega arith }

pub one_held : Holds one_ring (desc 0x40_0200 5 ∷ [])
one_held = record {
  valid = record { write_word = omega arith; read_word = omega arith; room = omega arith };
  holds = refl;
}

pub small_held : HandleHolds (req_ring 2 small) (desc 0x40_0200 5 ∷ []) (desc 0x40_0200 5 ∷ [])
small_held = record { free = one_held; used = one_held }

-- The transport with all buffers free.
abbrev pub emptied : Transport
emptied = i2c_transport_init base true blank

abbrev pub resting : Driver
resting = at_transport driver₀ emptied

abbrev pub free_req : List Desc
free_req = share base 0 511 0

abbrev pub free_ret : List Desc
free_ret = share base 1 511 0

pub ready : Free base emptied free_req free_ret (share base 2 511 0) (share base 3 511 0)
ready = (i2c_transport_init-Free base blank).0

pub resting-Keeps : Keeps (pools base).m2_req (pools base).m2_ret 2 resting
resting-Keeps =
    fresh free_req free_ret (length-share base 0 511 0) (length-share base 1 511 0) _ _ ready.m2_req
      ready.m2_ret idle (record { req = refl; ret = refl; len = refl })

-- A request of three bytes to the client 0x68.
abbrev pub requested : Driver
requested = at_transport driver₀ (alloc_req_buf emptied 2 3 (λ k. k + 1) 1 0x68).1

abbrev first : ℕ
first = buf_addr base 0 0

abbrev answer : Desc
answer = desc (buf_addr base 1 0) 512

pub can_begin : CanBegin (pools base).m2_req (pools base).m2_ret 2 requested (desc first 5) answer
can_begin =
    let (u, r, w, m, f) =
      alloc_req_buf-ok m2 emptied 3 (λ k. k + 1) 1 0x68 ready.m2_req (omega arith) (omega arith) in
    let same = ap (λ z. z.1) r in
    record {
      req_free = share base 0 510 1;
      more = [];
      spare = share base 1 510 1;
      ret_used = [];
      req_rings =
          subst (λ x. HandleHolds (req_ring 2 x) (share base 0 510 1) (desc first 5 ∷ []))
            (sym same) w;
      ret_rings =
          subst (λ x. HandleHolds (ret_ring 2 x) free_ret []) (sym same)
            (rw (f.ret 2) ready.m2_ret);
      req_ledger = free-used 5 (all_free free_req (length-share base 0 511 0));
      ret_ledger = all_free free_ret (length-share base 1 511 0);
      fit = ((omega arith, omega arith), tt);
    }

pub begun : Begun (pools base).m2_req (pools base).m2_ret 2 requested (desc first 5) answer
begun = CanBegin-Begun m2 (pools-NoNull region).m2_req (pools-NoNull region).m2_ret can_begin

pub requested-Keeps : Keeps (pools base).m2_req (pools base).m2_ret 2 requested
requested-Keeps = record {
  req_free = can_begin.req_free;
  req_used = desc first 5 ∷ can_begin.more;
  ret_free = answer ∷ can_begin.spare;
  ret_used = can_begin.ret_used;
  req_rings = can_begin.req_rings;
  ret_rings = can_begin.ret_rings;
  req_ledger = can_begin.req_ledger;
  ret_ledger = can_begin.ret_ledger;
  fit = can_begin.fit;
  short = omega arith;
  paired = (λ z. refl, λ z. refl);
}

-- checkBuf takes the request up.
pub taken_up : (t : Driver) × (check_buf 2 requested ≡ some t)
unfolding requested-Keeps begin_work
taken_up =
    let (c, r) =
      check_buf-begins m2 (pools-NoNull region).m2_req (pools-NoNull region).m2_ret requested
        requested-Keeps refl refl refl in
    let (t, e) =
      load-some 2 (begin_work 2 first 5 answer.encoded_addr (at_transport requested c.after))
        c.req_ne_zero in
    (t, r ∙ e)

-- The state as it does so, and the interrupt that comes with an error.
abbrev pub at_work : Driver
at_work = begin_work 2 first 5 answer.encoded_addr (at_transport requested begun.after)

pub ends : i2cirq 2 false at_work ≡ some (complete 2 (answered 2 false at_work))
unfolding begin_work i2c_get_error i2c_halt
ends = i2cirq-finished 2 false at_work begun.ret_ne_zero refl refl

pub loading-Pending :
    Pending (loading.if_state 2) loading.transport.mem message (1 ∷ 2 ∷ 4 ∷ 6 ∷ 0 ∷ []) (0x24 ∷ [])
unfolding translate direction
loading-Pending = record {
  busy = omega arith;
  space = omega arith;
  short = omega arith;
  remains = refl;
  fits = omega arith;
  stored = (
    refl,
    omega arith,
    (
      refl,
      omega arith,
      (refl, omega arith, (refl, omega arith, (refl, omega arith, (refl, omega arith, tt)))),
    ),
  );
  means =
      plain refl refl (plain refl refl (writes refl refl (plain refl refl (plain refl refl done))));
}

pub busy_finished : (waiting : Bool) → finished 2 (busy waiting) ≡ true
unfolding i2c_get_error i2c_halt
busy_finished waiting = refl
