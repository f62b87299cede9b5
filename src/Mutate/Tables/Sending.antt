-- ===== src/Mutate/Tables/Sending.antt =====
-- MUTANTS of tools/mutate_tcp.py: what the TCP table sends, and when.
use Prim.Native.String.{String}
use gopher_metal.Prelude.{ℕ, List, [], ◌∷◌, Option, none}
use gopher_metal.Prelude.Text.{codes}
use gopher_metal.Mutate.Runs.Tcp.{Mutant}

abbrev mutant : String → String → String → String → Option ℕ → Mutant
mutant name what old new nth = record {
  name = codes name;
  what = codes what;
  old = codes old;
  new = codes new;
  nth = nth;
}

-- the timers of the sending side
abbrev pub timer_rows : List Mutant
timer_rows =
    mutant "expiry-strict" "a timer fires only after its deadline, not at it"
      "const expired = if (c.rto_at) |at| now >= at else false;"
      "const expired = if (c.rto_at) |at| now > at else false;" none
    ∷ mutant "probe-timer-unarmed" "a shut window with bytes queued arms no probe timer"
        "                if (probe == .none) {\n                    if (c.rto_at == null) c.rto_at = now + c.rto_ns;\n"
        "                if (probe == .none) {\n" none
    ∷ mutant "data-timer-unarmed" "bytes sent arm no retransmission timer"
        "            c.high = @max(c.high, c.sent);\n            if (c.rto_at == null) c.rto_at = now + c.rto_ns;\n"
        "            c.high = @max(c.high, c.sent);\n" none
    ∷ mutant "fin-timer-unarmed" "our FIN sent arms no retransmission timer"
        "            c.fin.fire(.fin_emitted);\n            if (c.rto_at == null) c.rto_at = now + c.rto_ns;\n"
        "            c.fin.fire(.fin_emitted);\n" none
    ∷ mutant "synack-timer-unarmed" "a SYN-ACK arms no retransmission timer"
        "            c.heard_at = now;\n            c.rto_at = now + c.rto_ns;\n            self.arrivals += 1;"
        "            c.heard_at = now;\n            self.arrivals += 1;" none
    ∷ mutant "handshake-timer-kept" "completing the handshake leaves the SYN-ACK's timer armed"
        "            c.wl2 = number;\n            c.rto_at = null;\n            c.retries = 0;"
        "            c.wl2 = number;\n            c.retries = 0;" none
    ∷ mutant "ack-clears-timer"
        "an acknowledgement disarms the timer even with bytes still in flight"
        "c.rto_at = if (c.highest() != c.una) now + c.rto_ns else null;" "c.rto_at = null;" none
    ∷ mutant "resend-no-timer" "a fast retransmit does not restart the timer"
        "        c.timed_at = null; // Karn, the same as after a timeout\n        c.rto_at = now + c.rto_ns;\n"
        "        c.timed_at = null; // Karn, the same as after a timeout\n" none
    ∷ []

-- going back, and Karn
abbrev pub going_back_rows : List Mutant
going_back_rows =
    mutant "go-back-no-rewind" "a timeout sends again from where it was, not from una"
      "            c.sent = 0;\n            timeouts.recover(c);\n            if (c.fin.is(.sent)) c.fin.fire(.timed_out);"
      "            timeouts.recover(c);\n            if (c.fin.is(.sent)) c.fin.fire(.timed_out);"
      none
    ∷ mutant "go-back-keeps-fin" "a timeout does not send our FIN again"
        "            timeouts.recover(c);\n            if (c.fin.is(.sent)) c.fin.fire(.timed_out);\n            c.timed_at = null; // Karn: no telling"
        "            timeouts.recover(c);\n            c.timed_at = null; // Karn: no telling" none
    ∷ mutant "karn-off" "a timeout keeps timing a segment it is about to send again"
        "            c.timed_at = null; // Karn: no telling which copy is answered\n" "" none
    ∷ mutant "never-probe" "a shut window is never probed" "                if (probe == .none) {"
        "                if (probe == .none or c.state != .closed) {" none
    ∷ []

-- the clock
abbrev pub clock_rows : List Mutant
clock_rows =
    mutant "rto-small-variance" "the timeout leaves out the variation's factor of four"
      "c.srtt_ns + 4 * c.rttvar_ns" "c.srtt_ns + c.rttvar_ns" none
    ∷ mutant "rto-no-floor" "the timeout has no 200 ms floor"
        "c.rto_ns = @min(@max(c.srtt_ns + 4 * c.rttvar_ns, min_rto_ns), max_rto_ns);"
        "c.rto_ns = @min(c.srtt_ns + 4 * c.rttvar_ns, max_rto_ns);" none
    ∷ mutant "no-backoff" "a timeout does not double the next wait"
        "c.rto_ns = @min(c.rto_ns * 2, max_rto_ns);" "c.rto_ns = @min(c.rto_ns, max_rto_ns);" none
    ∷ mutant "retries-one-more" "one more timeout before giving up than max_retries"
        "if (c.retries >= max_retries) return false;" "if (c.retries > max_retries) return false;"
        none
    ∷ mutant "sample-too-early"
        "an acknowledgement one byte short of the timed segment is taken as its sample"
        "if (!sq.atOrAfter(number, c.timed_seq)) return; // not there yet"
        "if (!sq.atOrAfter(number, c.timed_seq -% 1)) return; // not there yet" none
    ∷ []

-- acknowledgements and the window
abbrev pub window_rows : List Mutant
window_rows =
    mutant "ack-past-flight" "an acknowledgement one past anything sent is taken"
      "if (advance > flight) return .ignore;" "if (advance > flight + 1) return .ignore;" none
    ∷ mutant "window-rule-off" "an older segment's window overrules a newer one's"
        "const updated = sq.after(seq, c.wl1) or (seq == c.wl1 and !sq.after(c.wl2, number));"
        "const updated = true;" none
    ∷ mutant "window-edge-drifts" "the right edge moves with una when the window was not updated"
        "        if (!updated) c.wnd -= @min(c.wnd, advance);\n" "" none
    ∷ mutant "fin-acked-early" "acknowledging every byte is taken as acknowledging our FIN too"
        "if (advance > bytes) {" "if (advance >= bytes) {" none
    ∷ mutant "fast-retransmit-off" "three duplicate acknowledgements send nothing again"
        "if (c.dupacks == dupacks_before_resend and c.duplicates == .counting)" "if (false)" none
    ∷ mutant "dupacks-kept" "new data acknowledged does not reset the duplicate count"
        "                c.dupacks = 0;\n                c.duplicates = .counting;\n"
        "                c.duplicates = .counting;\n" none
    ∷ mutant "dupacks-one" "one duplicate acknowledgement sends everything again"
        "pub const dupacks_before_resend: u8 = 3;" "pub const dupacks_before_resend: u8 = 1;" none
    ∷ []
