-- ===== src/Examples/Startup.antt =====
-- Starts of the server: a granted one, one whose port is taken, and a session that lacks its context.
use cpp_demo_build.Prelude.{true, false, none, some, [], ◌∷◌, ◌≡◌, refl, codes, arith}
use cpp_demo_build.Lab.ErrorCode.{already_in_progress, configuration_error}
use cpp_demo_build.Lab.Network.{EndpointConfig}
use cpp_demo_build.OrderEntry.Runtime
use cpp_demo_build.OrderEntry.Runtime.{
  ReceiverConfig, asio_udp, SessionConfig, RuntimeSession, no_session, setup_decoder,
  setup_receiver, setup_asio_receiver, setup, poll, reads_empty_receiver, HasReceiver, IsSafe,
  setup-poll, failed_setup,
}
use cpp_demo_build.Prelude.Throws.{value}
use cpp_demo_build.OrderEntry.Runtime.Config.{to_json, from_json}
use cpp_demo_build.OrderEntry.Runtime.ConfigRoundTrip.{from_json-to_json}
use cpp_demo_build.Examples.Documents.{documents, document_items}
use cpp_demo_build.Server.Application.{Answers, make_application, start}
use cpp_demo_build.Server.Application.First.{UpOrFailed, first_start}
use cpp_demo_build.Server.Application.Restart.{starts, stops, after_calls, Refused, another_start}
use cpp_demo_build.MatchingEngine.Engine.{make_engine}
use cpp_demo_build.Examples.Fixtures.{endless_pool, petr}

abbrev endpoint : EndpointConfig
endpoint = record { address = codes "0.0.0.0"; port = 9001 }

abbrev config : SessionConfig
config = record { receiver = asio_udp endpoint; max_datagram_size = 65535 }

abbrev granted : Answers
granted = record {
  socket = record { parses = true; opens = true; sets_option = true; binds = true };
  engine = make_engine endless_pool (petr ∷ []) 8;
  makes_output = true;
  makes_processing = true;
  makes_input = true;
}

abbrev port_taken : Answers
port_taken = record granted { socket = record granted.socket { binds = false } }

abbrev half_made : RuntimeSession
half_made = record no_session { decoder = some 65535; session_set = true }

setup_denied : setup config none no_session ≡ (some configuration_error, half_made)
unfolding setup setup_decoder setup_receiver
setup_denied = refl

failed_setup_example :
    (setup config (some 0) half_made ≡ (some already_in_progress, half_made))
    × (Runtime.start granted.socket half_made ≡ (none, half_made))
    × (poll half_made ≡ reads_empty_receiver)
failed_setup_example =
    failed_setup config none half_made config (some 0) granted.socket setup_denied

first_start_example :
    UpOrFailed (asio_udp endpoint) granted (start granted (make_application config))
first_start_example = first_start config granted

another_start_example :
    Refused
      (asio_udp endpoint)
      (after_calls (starts port_taken ∷ stops ∷ []) (make_application config))
      (start granted (after_calls (starts port_taken ∷ stops ∷ []) (make_application config)))
another_start_example = another_start config port_taken granted (stops ∷ [])

from_json-to_json_example :
    from_json documents document_items (to_json documents config) ≡ value config
from_json-to_json_example =
    from_json-to_json documents document_items config (omega arith) (omega arith)
