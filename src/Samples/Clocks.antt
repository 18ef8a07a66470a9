-- ===== src/Samples/Clocks.antt =====
-- The NTP client at concrete inputs, with integers for the numbers of type `double`.
use netmon_plugins.Clock.{Offsets, severity, exceeds}
use netmon_plugins.Clock.NtpOffset
use netmon_plugins.Clock.NtpTime
use netmon_plugins.Clock.TimeServer
use netmon_plugins.Clock.Severity.{IsOrdered, is_worse, reports_mono}
use netmon_plugins.Cpp.Convert.{stoi}
use netmon_plugins.Cpp.Decimal.{to_string, to_string_ℕ}
use netmon_plugins.Plugin.{exit_status, warning, critical}
use netmon_plugins.Prelude.Text.{codes}
use netmon_plugins.Ntp.{
  Answers, Doubles, QueryResult, Timeval, create_udp_socket, try_addresses, timeval_to_seconds,
  offset_of, ntp_timestamp_to_unix, query, ntp, time_protocol, zeros,
}
use netmon_plugins.Ntp.Sockets.{effects, nothing_held, query-effects}
use netmon_plugins.Ntp.Stamps.{ahead, since_1970, packet, query-packet}
use netmon_plugins.Prelude.{
  ◌≡◌, ◌≤◌, arith, neg_part, ltb_ℤ, ◌+◌, negsuc, refl, true, false, [], ◌∷◌, some, ℤ, pos, pos_part,
  ◌+ℤ◌, ◌-ℤ◌,
}
use netmon_plugins.SslValidity.Certificate.{quotient}

abbrev whole : Doubles ℤ
whole = record {
  of_int = λ n. n;
  add = λ a b. a +ℤ b;
  subtract = λ a b. a -ℤ b;
  divide = λ a b. quotient a (pos_part b);
}

abbrev start : Timeval
start = record { sec = pos 1000; usec = pos 0 }

abbrev end_time : Timeval
end_time = record { sec = pos 1002; usec = pos 0 }

-- The second address gives a socket, and the server says 1001.
abbrev answers : Answers
answers = record {
  addresses = false ∷ true ∷ [];
  gai_strerror = [];
  timeouts_set = true;
  send_time = some start;
  sent = pos 48;
  datagram = some (packet 28 2 (zeros 38) 2208989801 0);
  receive_time = some end_time;
}

query-effects_example :
    effects (query whole time_protocol answers).0 nothing_held ≡ some nothing_held
query-effects_example = query-effects whole time_protocol answers

query-packet_example : (query whole ntp answers).1 ≡ record {
  ok = true;
  offset_seconds = ahead whole start end_time (since_1970 whole 2208989801 0);
  stratum = 2;
  error = [];
}
unfolding create_udp_socket try_addresses
query-packet_example =
    query-packet whole start end_time 28 2 (zeros 38) 2208989801 0 refl answers refl refl refl refl
      refl refl

-- The clocks agree.
agreed : offset_of whole start end_time (ntp_timestamp_to_unix whole 2208989801 0) ≡ pos 0
unfolding offset_of ntp_timestamp_to_unix timeval_to_seconds ◌+ℤ◌ ◌-ℤ◌
agreed = refl

abbrev whole_offsets : Offsets ℤ
whole_offsets = record {
  stod = stoi;
  fixed = to_string;
  abs = λ a. pos (pos_part a + neg_part a);
  above = λ a b. ltb_ℤ b a;
  nought = pos 0;
}

whole_offsets-IsOrdered : IsOrdered whole_offsets
whole_offsets-IsOrdered a b limit h more = ground arith

abbrev near : QueryResult ℤ
near = record { ok = true; offset_seconds = pos 2; stratum = 2; error = [] }

abbrev far : QueryResult ℤ
far = record { ok = true; offset_seconds = negsuc 9; stratum = 2; error = [] }

abbrev ntp_limits : NtpOffset.Config ℤ
ntp_limits = NtpOffset.default_config whole whole_offsets

abbrev ntp_time_limits : NtpTime.Config ℤ
ntp_time_limits = NtpTime.default_config whole whole_offsets

abbrev time_limits : TimeServer.Config ℤ
time_limits = TimeServer.default_config whole whole_offsets

further_off : is_worse whole_offsets far near ≡ true
unfolding is_worse
further_off = refl

reports_mono_example :
    exit_status (NtpOffset.report whole whole_offsets ntp_limits near).code
      ≤ exit_status (NtpOffset.report whole whole_offsets ntp_limits far).code
    × (exit_status (NtpTime.report whole whole_offsets ntp_time_limits near).code
          ≤ exit_status (NtpTime.report whole whole_offsets ntp_time_limits far).code
        × exit_status (TimeServer.report whole whole_offsets time_limits near).code
          ≤ exit_status (TimeServer.report whole whole_offsets time_limits far).code)
reports_mono_example =
    reports_mono whole whole_offsets whole_offsets-IsOrdered ntp_limits ntp_time_limits time_limits
      near far further_off

near_result : NtpOffset.report whole whole_offsets ntp_limits near ≡ record {
  code = warning;
  message = codes "NTP WARNING - Time offset: 2 seconds (threshold: 1)";
  perfdata = codes "ntp_offset=2s;1;5";
}
unfolding NtpOffset.report NtpOffset.default_config NtpOffset.message NtpOffset.perf severity
    exceeds to_string to_string_ℕ
near_result = refl

far_result : NtpOffset.report whole whole_offsets ntp_limits far ≡ record {
  code = critical;
  message = codes "NTP CRITICAL - Time offset: -10 seconds (threshold: 5)";
  perfdata = codes "ntp_offset=-10s;1;5";
}
unfolding NtpOffset.report NtpOffset.default_config NtpOffset.message NtpOffset.perf severity
    exceeds to_string to_string_ℕ
far_result = refl
