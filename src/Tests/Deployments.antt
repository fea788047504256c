-- ===== src/Tests/Deployments.antt =====
-- A deployment on a host where every request is answered and each step takes a tick.
use minifleet.Prelude.{
  ℕ, zero, suc, String, ◌<◌, ◌+◌, ◌≡◌, refl, Bool, true, false, Option, some, arith, trim,
}
use minifleet.Model.{pos, text, end, field, object}
use minifleet.Deploy.{
  Host, Line, line, empty, converted, Settings, Deployment, reported, answered, probe_url,
  soak_from, soak, behind_prefix, parse_port, wait_ready, observe, deploy,
}
use minifleet.Deploy.Ends.{Ticks}

-- the product writes its ready line at the second tick
abbrev next_of : ℕ → Line
next_of (suc zero) = line "MINIFLEET_READY {}"
next_of w = empty

abbrev host : Host
host = record {
  World = ℕ;
  clock = λ w. w;
  get = λ url w. (answered 200, suc w);
  sleep = λ n w. w + n;
  next_line = λ n w. (next_of w, suc w);
  start = λ w. (true, suc w);
  stop = λ w. (pos 0, suc w);
  loads = λ s. some (object (field "port" (text "8080") end));
  int_of = λ v. converted (pos 8080);
  url_of = λ port. "http://127.0.0.1:8080/healthz";
}

abbrev lines_left : ℕ → ℕ
lines_left zero = 1
lines_left (suc zero) = 1
lines_left w = 0

next_fewer : (n w : ℕ) (t : String) → next_of w ≡ line t → lines_left (suc w) < lines_left w
next_fewer n zero t e = absurd (ground (arith, e))
next_fewer n (suc zero) t e = omega arith
next_fewer n (suc (suc w)) t e = absurd (ground (arith, e))

abbrev host_ticks : Ticks host
host_ticks = record {
  get_later = λ url w. omega arith;
  sleep_later = λ n w. omega arith;
  lines = lines_left;
  line_fewer = next_fewer;
}

abbrev settings : Settings
settings = record { ready_prefix = "MINIFLEET_READY"; timeout = 5; seconds = 3; interval = 1 }

abbrev is_good_run : Option (Deployment host.World) → Bool
is_good_run (some (reported r w)) = r.ok
is_good_run d = false

deploy-good : is_good_run (deploy host settings 5 0) ≡ true
unfolding probe_url soak_from soak behind_prefix parse_port wait_ready observe deploy trim
deploy-good = refl
