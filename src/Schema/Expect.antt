-- ===== src/Schema/Expect.antt =====
-- The test that recurs in all contracts: a field must have one value, else a message is added.
use rns.Prelude.{String, ◌<>◌, not, true, ◌&&◌, ◌≡◌, not-false}
use rns.Json.{Value, Fields, str, get, py_eq, is_dict, is_true}
use rns.Json.Laws.{py_eq-str}
use rns.Check.{Check, when, reject}
use rns.Check.Passes.{Passes, reject-Passes}
use rns.Schema.Mode.{fields_of}

-- `metadata.get(key) != expected`, an error.
unfoldable pub expect : Fields → String → Value → String → Check Unit
expect d key expected message = reject (not (py_eq (get key d) expected)) message

-- The scope of the GPU events, where the metadata says that they were timed.
unfoldable pub expect_scope : Value → String → Check Unit
unfolding expect
expect_scope metadata scope =
    when (is_dict metadata && is_true (get "gpu_event_timing" (fields_of metadata))) (
      expect (fields_of metadata) "gpu_event_timing_source_scope" (str scope)
        ("timing_metadata.gpu_event_timing_source_scope must be " <> scope))

pub expect-Passes :
    (d : Fields) (key : String) (v : Value) (message : String)
    → Passes (expect d key v message)
    → py_eq (get key d) v ≡ true
unfolding expect
expect-Passes d key v message h = not-false _ (reject-Passes _ message h)

pub expect-Passes_str :
    (d : Fields) (key s message : String)
    → Passes (expect d key (str s) message)
    → get key d ≡ str s
expect-Passes_str d key s message h = py_eq-str _ s (expect-Passes d key (str s) message h)
