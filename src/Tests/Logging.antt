-- ===== src/Tests/Logging.antt =====
-- A start of the command line proxy.
use hexbuffer_proxy.Prelude.{◌≡◌, refl, true, false, List, [], ◌∷◌, some, ok}
use hexbuffer_proxy.Text.{Bytes, Str, codes, equal}
use hexbuffer_proxy.Builder.Enabled.{Shared, load, enabled_wrapper_handler}
use hexbuffer_proxy.Builder.Stack.{handler_stack}
use hexbuffer_proxy.Builder.Proxy.{
  Proxy, build, chosen_ca, chosen_handler, calls, call, new_builder,
}
use hexbuffer_proxy.Ca.Store.{new_in, make_ca, build_ca_params, new, generate_ca}
use hexbuffer_proxy.Logger.Handlers.{Terminal, ws_logger}
use hexbuffer_proxy.Logger.Main.{any_is, main_proxy, start_proxy, main_calls}
use hexbuffer_proxy.Logger.Decision.{both, Logs, main_proxy-Logs}
use hexbuffer_proxy.Tests.Instances.{http, tools, machine}
use hexbuffer_proxy.Tests.Syntax.{syntax}
use hexbuffer_proxy.Tests.Certifying.{authority, started}

abbrev terminal : Shared Terminal
terminal = record { flag = λ c. true; flags = 3; rest = record { counter = 0; lines = [] } }

abbrev args : List Str
args = codes "proxy" ∷ codes "--disabled" ∷ []

abbrev close_reason : Bytes → Str
close_reason b = codes "None"

abbrev proxy : Proxy http tools Terminal
proxy = record {
  addr = codes "127.0.0.1:8080";
  ca = authority;
  handler = enabled_wrapper_handler http (handler_stack http (both http syntax)) 3;
  ws_handler = some (ws_logger http syntax close_reason);
  request_buffer_size = 16384;
  enabled = 3;
}

-- The memory behind the start: one flag more, which is off.
abbrev disabled : Shared Terminal
disabled =
    (calls http tools Terminal (main_calls http syntax tools close_reason authority false)
      (new_builder http tools Terminal terminal)).1

main_started :
    main_proxy http syntax tools close_reason args terminal machine
    ≡ ok (some proxy, disabled, started)
unfolding main_proxy start_proxy any_is equal new new_in make_ca generate_ca build_ca_params build
    chosen_ca chosen_handler calls call new_builder
main_started = refl

main_proxy-Logs_example : (load 3 disabled ≡ false) × Logs http syntax proxy.handler 3
unfolding any_is equal
main_proxy-Logs_example =
    main_proxy-Logs http syntax tools close_reason args terminal disabled machine started proxy
      main_started
