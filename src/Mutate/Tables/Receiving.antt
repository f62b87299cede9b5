-- ===== src/Mutate/Tables/Receiving.antt =====
-- MUTANTS of tools/mutate_tcp.py: what the TCP table receives, its slots, and losses.
use Prim.Native.String.{String}
use gopher_metal.Prelude.{ℕ, List, [], ◌∷◌, Option, none}
use gopher_metal.Prelude.Text.{codes}
use gopher_metal.Mutate.Runs.Tcp.{Mutant}

abbrev mutant : String → String → String → String → Option ℕ → Mutant
mutant name what old new nth = record {
  name = codes name;
  what = codes what;
  old = codes old;
  new = codes new;
  nth = nth;
}

-- the receiving side
abbrev pub receive_rows : List Mutant
receive_rows =
    mutant "rst-in-window" "a reset anywhere in the window resets, not only at RCV.NXT"
      "if (c.ahead(seq)) return .challenge;" "if (c.ahead(seq)) return .exact;" none
    ∷ mutant "no-challenge-ack" "a reset in the window is ignored rather than challenged"
        "if (c.ahead(seq)) return .challenge;" "if (c.ahead(seq)) return .ignore;" none
    ∷ mutant "window-edge-inclusive" "a segment at the window's right edge counts as ahead"
        "return seq != self.rcv_nxt and sq.within(seq, self.rcv_nxt, @max(self.window(), 1));"
        "return seq != self.rcv_nxt and sq.within(seq, self.rcv_nxt, @as(u32, @max(self.window(), 1)) + 1);"
        none
    ∷ mutant "everything-behind" "a segment past the window is taken as one from behind"
        "const behind = acceptable == .behind;" "const behind = true;" none
    ∷ mutant "handshake-any-ack" "the handshake completes on any acknowledgement number"
        "if (ackCheck(c, number) == .reset_it) {" "if (false) {" none
    ∷ mutant "peer-fin-forgotten" "the peer's FIN is acknowledged but not recorded"
        "            c.peer_half.fire(.fin_received);\n" "" none
    ∷ mutant "fin-wait-unbounded" "our FIN acknowledged starts no wait for the peer's"
        "        c.fin_wait_until = now + fin_wait_ns;\n" "        _ = now;\n" none
    ∷ mutant "fin-wait-strict" "the wait for the peer's FIN ends after its deadline, not at it"
        "if (c.fin_wait_until) |until| if (now >= until) {"
        "if (c.fin_wait_until) |until| if (now > until) {" none
    ∷ []

-- the window that is offered
abbrev pub offered_rows : List Mutant
offered_rows =
    mutant "never-compact"
      "consumed bytes at the front are never reclaimed until the buffer empties"
      "} else if (self.start > self.rx.len / 2) {" "} else if (false) {" none
    ∷ mutant "never-announce" "a reopened window the reader did not announce is never announced"
        "if (c.tight(c.told_wnd) and !c.tight(c.window())) {" "if (false) {" none
    ∷ mutant "never-repeat" "a reopened window is said once and never repeated"
        "if (c.updates >= max_retries) {" "if (c.window_news == .repeating) {" none
    ∷ mutant "data-not-heard" "data from the peer does not settle the window debt"
        "            if (n > 0) c.heard();\n" "" none
    ∷ mutant "news-for-done-peer" "a window is owed to a peer that has sent its FIN"
        "if (c.tight(w) or c.peerDone()) {" "if (c.tight(w)) {" none
    ∷ []

-- slots
abbrev pub slot_rows : List Mutant
slot_rows =
    mutant "claimed-slot-reused" "a slot the host still holds is handed to a new connection"
      "if (c.state == .closed and !c.claimed) return i;" "if (c.state == .closed) return i;" none
    ∷ []

-- recovering from a loss
abbrev pub loss_rows : List Mutant
loss_rows =
    mutant "recovery-no-floor"
      "a timeout with nothing past una outstanding allows no byte, so a shut window is never probed"
      "c.recovery = @max(1, @min(@as(usize, c.mss), c.high));"
      "c.recovery = @min(@as(usize, c.mss), c.high);" none
    ∷ mutant "recovery-cap-unchecked"
        "recovering, the send loop sends the whole window again (the go-back)"
        "if (c.recovery) |cap| if (c.sent >= cap) break;"
        "if (c.recovery) |cap| if (c.sent >= cap and false) break;" none
    ∷ []
