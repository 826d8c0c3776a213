-- ===== src/Deployment/Sglang.antt =====
-- commands/sglang.py: the words that start the server.
use sglang_ops_stack.Base.{
  String, ◌<>◌, Bool, List, [], ◌∷◌, ◌++◌, Option, none, some, if◌then◌else◌,
}
use sglang_ops_stack.Base.Text.{is_empty, replace, precedes}
use sglang_ops_stack.Base.Show.{show}
use sglang_ops_stack.Db.{SglangConfig, LaunchStyle, ExtraValue, extra_text, extra_int, extra_number}
use sglang_ops_stack.Deployment.Docker.{flag}

unfoldable pub insert :
    String × ExtraValue → List (String × ExtraValue) → List (String × ExtraValue)
insert item [] = item ∷ []
insert (key, value) ((key', value') ∷ items) =
    let rest = insert (key, value) items in
    if precedes key key' then (key, value) ∷ (key', value') ∷ items else (key', value') ∷ rest

-- The items in the order of `sorted(config.extra_args)`.
unfoldable pub sorted_items : List (String × ExtraValue) → List (String × ExtraValue)
unfolding insert
sorted_items [] = []
sorted_items (item ∷ items) = insert item (sorted_items items)

-- `str(value)`
unfoldable pub str_extra : ExtraValue → String
str_extra (extra_text s) = s
str_extra (extra_int n) = show n
str_extra (extra_number s) = s

unfoldable pub extra_words : List (String × ExtraValue) → List String
unfolding str_extra
extra_words [] = []
extra_words ((key, value) ∷ items) =
    ("--" <> replace "_" "-" key) ∷ str_extra value ∷ extra_words items

-- `if value is not None`: an empty text is given too.
abbrev if_not_none : String → Option String → List String
if_not_none name none = []
if_not_none name (some value) = name ∷ value ∷ []

abbrev switch : String → Bool → List String
switch name on = if on then name ∷ [] else []

abbrev launch_words : LaunchStyle → String → List String
launch_words LaunchStyle.python_module model_path =
    "python3" ∷ "-m" ∷ "sglang.launch_server" ∷ "--model-path" ∷ model_path ∷ []
launch_words LaunchStyle.sglang model_path = "sglang" ∷ "serve" ∷ model_path ∷ []

unfoldable pub words_for : String → SglangConfig → List String
unfolding flag extra_words sorted_items
words_for model_path config =
    launch_words config.launch_style model_path
    ++ ("--host"
        ∷ config.host
        ∷ "--port"
        ∷ show config.port
        ∷ "--tp-size"
        ∷ show config.tp_size
        ∷ "--dp-size"
        ∷ show config.dp_size
        ∷ "--pp-size"
        ∷ show config.pp_size
        ∷ [])
    ++ flag "--served-model-name" config.served_model_name
    ++ if_not_none "--mem-fraction-static" config.mem_fraction_static
    ++ switch "--trust-remote-code" config.trust_remote_code
    ++ switch "--enable-cache-report" config.enable_cache_report
    ++ switch "--enable-metrics" config.enable_metrics
    ++ extra_words (sorted_items config.extra_args)

-- `none` stands for the `ValueError` on a missing model path.
unfoldable pub build_sglang_argv : SglangConfig → Option (List String)
build_sglang_argv config = elim config.model_path [
  | none ↦ none
  | some model_path ↦ if is_empty model_path then none else some (words_for model_path config)
]
