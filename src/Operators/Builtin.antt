-- ===== src/Operators/Builtin.antt =====
-- `BUILTIN_OPERATORS` of python/sdpstudio_core/operators.py, in the source's order. Of each entry the
-- model keeps what validation reads: the ports, the modes, the names of the required fields and the
-- metadata of the input ports. Titles, labels, categories and the fields' widgets are left out.
use sdp_studio.Prelude.{true, List, [], ◌∷◌, ◌++◌}
use sdp_studio.Operators.{Operator, operator, both_modes, batch_only, streaming_only}

abbrev pub builtin_part_1 : List Operator
builtin_part_1 =
    operator "source.table" [] ("out" ∷ []) both_modes ("table" ∷ []) []
    ∷ operator "source.file" [] ("out" ∷ []) both_modes ("path" ∷ []) []
    ∷ operator "source.jdbc" [] ("out" ∷ []) batch_only ("url" ∷ "dbtable" ∷ []) []
    ∷ operator "source.kafka" [] ("out" ∷ []) streaming_only ("bootstrapServers" ∷ "subscribe" ∷ [])
        []
    ∷ operator "source.sql_query" [] ("out" ∷ []) batch_only ("query" ∷ []) []
    ∷ operator "source.dataset_reference" [] ("out" ∷ []) both_modes ("name" ∷ []) []
    ∷ operator "source.generic" [] ("out" ∷ []) both_modes ("format" ∷ []) []
    ∷ operator "source.custom_pyspark" [] ("out" ∷ []) both_modes ("code" ∷ []) []
    ∷ operator "utility.parameter" [] ("out" ∷ []) both_modes ("name" ∷ []) []
    ∷ operator "utility.constant" [] ("out" ∷ []) both_modes ("name" ∷ "value" ∷ []) []
    ∷ operator "utility.note" [] [] both_modes [] []
    ∷ []

abbrev pub builtin_part_2 : List Operator
builtin_part_2 =
    operator "utility.group" ("in" ∷ []) ("out" ∷ []) both_modes ("name" ∷ []) []
    ∷ operator "utility.component_input" [] ("out" ∷ []) both_modes ("name" ∷ []) []
    ∷ operator "utility.component_output" ("in" ∷ []) [] both_modes ("name" ∷ []) []
    ∷ operator "utility.custom_code" ("in" ∷ []) ("out" ∷ []) both_modes ("code" ∷ []) []
    ∷ operator "transform.filter" ("in" ∷ []) ("out" ∷ []) both_modes ("expression" ∷ []) []
    ∷ operator "transform.select" ("in" ∷ []) ("out" ∷ []) both_modes ("columns" ∷ []) []
    ∷ operator "transform.derive" ("in" ∷ []) ("out" ∷ []) both_modes ("name" ∷ "expression" ∷ [])
        []
    ∷ operator "transform.sql_project" ("in" ∷ []) ("out" ∷ []) both_modes ("query" ∷ []) []
    ∷ operator "transform.pyspark_block" ("in" ∷ []) ("out" ∷ []) both_modes ("code" ∷ []) []
    ∷ operator "transform.drop" ("in" ∷ []) ("out" ∷ []) both_modes ("columns" ∷ []) []
    ∷ operator "transform.rename" ("in" ∷ []) ("out" ∷ []) both_modes ("mapping" ∷ []) []
    ∷ operator "transform.cast" ("in" ∷ []) ("out" ∷ []) both_modes ("column" ∷ "dataType" ∷ []) []
    ∷ []

abbrev pub builtin_part_3 : List Operator
builtin_part_3 =
    operator "transform.fill_nulls" ("in" ∷ []) ("out" ∷ []) both_modes ("values" ∷ []) []
    ∷ operator "transform.drop_nulls" ("in" ∷ []) ("out" ∷ []) both_modes [] []
    ∷ operator "transform.drop_duplicates" ("in" ∷ []) ("out" ∷ []) both_modes [] []
    ∷ operator "transform.deduplicate_event_time" ("in" ∷ []) ("out" ∷ []) both_modes
        ("columns" ∷ "eventTime" ∷ []) []
    ∷ operator "transform.union_by_name" ("left" ∷ "right" ∷ []) ("out" ∷ []) both_modes [] []
    ∷ operator "transform.sort" ("in" ∷ []) ("out" ∷ []) both_modes ("expressions" ∷ []) []
    ∷ operator "transform.limit" ("in" ∷ []) ("out" ∷ []) both_modes ("count" ∷ []) []
    ∷ operator "transform.explode" ("in" ∷ []) ("out" ∷ []) both_modes ("column" ∷ "target" ∷ []) []
    ∷ operator "transform.posexplode" ("in" ∷ []) ("out" ∷ []) both_modes ("column" ∷ "target" ∷ [])
        []
    ∷ operator "transform.repartition" ("in" ∷ []) ("out" ∷ []) both_modes ("partitions" ∷ []) []
    ∷ []

abbrev pub builtin_part_4 : List Operator
builtin_part_4 =
    operator "transform.coalesce" ("in" ∷ []) ("out" ∷ []) both_modes ("partitions" ∷ []) []
    ∷ operator "transform.aggregate" ("in" ∷ []) ("out" ∷ []) both_modes [] []
    ∷ operator "transform.join" ("left" ∷ "right" ∷ []) ("out" ∷ []) both_modes [] []
    ∷ operator "transform.distinct" ("in" ∷ []) ("out" ∷ []) both_modes [] []
    ∷ operator "transform.reorder" ("in" ∷ []) ("out" ∷ []) both_modes ("columns" ∷ []) []
    ∷ operator "transform.replace" ("in" ∷ []) ("out" ∷ []) both_modes ("column" ∷ "mapping" ∷ [])
        []
    ∷ operator "transform.intersect" ("left" ∷ "right" ∷ []) ("out" ∷ []) both_modes [] []
    ∷ operator "transform.except" ("left" ∷ "right" ∷ []) ("out" ∷ []) both_modes [] []
    ∷ operator "transform.flatten_struct" ("in" ∷ []) ("out" ∷ []) both_modes ("column" ∷ []) []
    ∷ operator "transform.build_struct" ("in" ∷ []) ("out" ∷ []) both_modes
        ("target" ∷ "fields" ∷ []) []
    ∷ operator "transform.build_map" ("in" ∷ []) ("out" ∷ []) both_modes
        ("target" ∷ "keys" ∷ "values" ∷ []) []
    ∷ operator "transform.build_array" ("in" ∷ []) ("out" ∷ []) both_modes
        ("target" ∷ "expressions" ∷ []) []
    ∷ []

abbrev pub builtin_part_5 : List Operator
builtin_part_5 =
    operator "transform.watermark" ("in" ∷ []) ("out" ∷ []) both_modes ("column" ∷ "delay" ∷ []) []
    ∷ operator "transform.json_parse" ("in" ∷ []) ("out" ∷ []) both_modes
        ("column" ∷ "schema" ∷ "target" ∷ []) []
    ∷ operator "transform.window" ("in" ∷ []) ("out" ∷ []) both_modes ("target" ∷ "expression" ∷ [])
        []
    ∷ operator "quality.column_rule" ("in" ∷ []) ("out" ∷ []) both_modes
        ("column" ∷ "condition" ∷ []) []
    ∷ operator "quality.null_rate" ("in" ∷ []) ("out" ∷ []) both_modes ("column" ∷ "maxRate" ∷ [])
        []
    ∷ operator "quality.uniqueness" ("in" ∷ []) ("out" ∷ []) both_modes ("columns" ∷ []) []
    ∷ operator "quality.schema_contract" ("in" ∷ []) ("out" ∷ []) both_modes ("schema" ∷ []) []
    ∷ operator "quality.profile_probe" ("in" ∷ []) ("out" ∷ []) both_modes [] []
    ∷ operator "quality.row_count_range" ("in" ∷ []) ("out" ∷ []) both_modes [] []
    ∷ operator "quality.referential_sample" ("in" ∷ "reference" ∷ []) ("out" ∷ []) both_modes
        ("columns" ∷ []) (("reference", record { optional = true; cardinality = "one" }) ∷ [])
    ∷ []

abbrev pub builtin_part_6 : List Operator
builtin_part_6 =
    operator "quality.quarantine_split" ("in" ∷ []) ("accepted" ∷ "quarantine" ∷ []) both_modes
      ("condition" ∷ "quarantineName" ∷ []) []
    ∷ operator "dataset.materialized_view" ("in" ∷ []) ("out" ∷ []) both_modes ("name" ∷ []) []
    ∷ operator "dataset.streaming_table" ("in" ∷ []) ("out" ∷ []) both_modes ("name" ∷ []) []
    ∷ operator "dataset.temporary_view" ("in" ∷ []) ("out" ∷ []) both_modes ("name" ∷ []) []
    ∷ operator "dataset.auto_cdc_scd1" ("in" ∷ []) ("out" ∷ []) streaming_only
        ("name" ∷ "keys" ∷ "sequence_by" ∷ []) []
    ∷ operator "sink.external" ("in" ∷ []) [] streaming_only ("name" ∷ "format" ∷ []) []
    ∷ []

-- The whole list.
abbrev pub builtin_operators : List Operator
builtin_operators =
    builtin_part_1
    ++ (builtin_part_2
        ++ (builtin_part_3 ++ (builtin_part_4 ++ (builtin_part_5 ++ builtin_part_6))))
