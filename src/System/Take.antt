-- ===== src/System/Take.antt =====
-- The buffers that checkBuf (i2c/i2c-odroid-c4.c) takes off the rings.
use sddf_i2c_driver.Prelude.{ℕ, ◌≤◌, ◌≡◌, refl, ◌∙◌, ◌≢◌, List, ◌∷◌, arith, ==_of_ne}
use sddf_i2c_driver.Prelude.Words.{u32}
use sddf_i2c_driver.Ring.{Desc}
use sddf_i2c_driver.Ring.Handle.{HandleHolds}
use sddf_i2c_driver.Transport.{Transport, req_ring, ret_ring}
use sddf_i2c_driver.Transport.Lens.{IsBus, other}
use sddf_i2c_driver.Transport.Calls.{ReqFrame, RetFrame, pop_req_buf-ok, get_ret_buf-ok}
use sddf_i2c_driver.Driver.{Driver, begin_work, take_request, load}
use sddf_i2c_driver.System.BusInv.{Untouched}

abbrev pub at_transport : Driver → Transport → Driver
at_transport s t = record s { transport = t }

-- The two rings of one bus are changed, and the other bus is left alone.
pub frames-Untouched :
    {bus : ℕ} {s : Driver} {t u : Transport}
    → ReqFrame bus s.transport t
    → RetFrame bus t u
    → Untouched (other bus) s (at_transport s u)
frames-Untouched {bus} f g = record {
  req = g.req (other bus) ∙ f.req;
  ret = g.ret ∙ f.ret (other bus);
  state = refl;
  regs = refl;
}

-- The buffers that checkBuf takes off the rings, and the rings then.
pub record Taken (bus : ℕ) (s : Driver) (d e : Desc) (rf ru tf tu : List Desc) : Type 0 where
  pub after : Transport
  pub works :
      take_request bus s
      ≡ load bus (begin_work bus d.encoded_addr d.len e.encoded_addr (at_transport s after))
  pub req_rings : HandleHolds (req_ring bus after) rf ru
  pub ret_rings : HandleHolds (ret_ring bus after) tf tu
  pub same_mem : after.mem ≡ s.transport.mem
  pub apart : Untouched (other bus) s (at_transport s after)

pub take_request-Taken :
    {bus : ℕ} {d e : Desc} {rf ru tf tu : List Desc} (b : IsBus bus) (s : Driver)
    → HandleHolds (req_ring bus s.transport) rf (d ∷ ru)
    → HandleHolds (ret_ring bus s.transport) (e ∷ tf) tu
    → d.encoded_addr ≢ 0
    → e.encoded_addr ≢ 0
    → d.len ≤ 512
    → Taken bus s d e rf ru tf tu
unfolding take_request
take_request-Taken {bus} {d} {e} {tf = tf} {tu = tu} b s reqs rets ne ne' le =
    let (t, r, w, m, f) = pop_req_buf-ok b s.transport reqs in
    let rets' : HandleHolds (ret_ring bus t) (e ∷ tf) tu = rw (f.ret bus) rets in
    let (u, r', w', m', g) = get_ret_buf-ok b t rets' in
    let l : u32 d.len ≡ d.len = omega arith in
    record {
      after = u;
      works = rw (r, ==_of_ne d.encoded_addr 0 ne, r', ==_of_ne e.encoded_addr 0 ne', l);
      req_rings = rw (g.req bus) w;
      ret_rings = w';
      same_mem = m' ∙ m;
      apart = frames-Untouched f g;
    }
