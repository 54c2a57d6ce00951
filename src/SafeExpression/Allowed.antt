-- ===== src/SafeExpression/Allowed.antt =====
-- The allow-lists of python/sdpstudio_codegen/safe_expression.py, in the order of the source.
use sdp_studio.Prelude.{String, List, [], ◌∷◌}

-- `_ALLOWED_NAMES`
abbrev pub allowed_names : List String
allowed_names = "df" ∷ "F" ∷ []

-- `_ALLOWED_DATAFRAME_METHODS`
abbrev pub allowed_dataframe_methods : List String
allowed_dataframe_methods =
    "alias" ∷ "coalesce" ∷ "crossJoin" ∷ "distinct" ∷ "drop" ∷ "dropDuplicates" ∷ "filter" ∷ "join"
    ∷ "limit" ∷ "orderBy" ∷ "repartition" ∷ "sample" ∷ "select" ∷ "sort" ∷ "union" ∷ "unionByName"
    ∷ "where" ∷ "withColumn" ∷ "withColumnRenamed" ∷ []

-- `_ALLOWED_COLUMN_METHODS`
abbrev pub allowed_column_methods : List String
allowed_column_methods =
    "alias" ∷ "asc" ∷ "asc_nulls_first" ∷ "asc_nulls_last" ∷ "between" ∷ "cast" ∷ "contains"
    ∷ "desc" ∷ "desc_nulls_first" ∷ "desc_nulls_last" ∷ "endswith" ∷ "eqNullSafe" ∷ "isNotNull"
    ∷ "isNull" ∷ "isin" ∷ "otherwise" ∷ "startswith" ∷ "when" ∷ []

-- `_ALLOWED_FUNCTIONS`
abbrev pub allowed_functions : List String
allowed_functions =
    "abs" ∷ "acos" ∷ "array" ∷ "array_contains" ∷ "array_distinct" ∷ "array_except"
    ∷ "array_intersect" ∷ "array_join" ∷ "array_max" ∷ "array_min" ∷ "array_position"
    ∷ "array_remove" ∷ "array_repeat" ∷ "array_size" ∷ "array_sort" ∷ "arrays_overlap"
    ∷ "arrays_zip" ∷ "asc" ∷ "asin" ∷ "atan" ∷ "atan2" ∷ "avg" ∷ "base64" ∷ "bround" ∷ "ceil"
    ∷ "ceiling" ∷ "coalesce" ∷ "col" ∷ "collect_list" ∷ "collect_set" ∷ "concat" ∷ "concat_ws"
    ∷ "corr" ∷ "cos" ∷ "cosh" ∷ "count" ∷ "count_distinct" ∷ "countDistinct" ∷ "covar_pop"
    ∷ "covar_samp" ∷ "crc32" ∷ "create_map" ∷ "current_date" ∷ "current_timestamp" ∷ "date_add"
    ∷ "date_format" ∷ "date_sub" ∷ "datediff" ∷ "dayofmonth" ∷ "dayofweek" ∷ "dayofyear" ∷ "desc"
    ∷ "element_at" ∷ "exp" ∷ "first" ∷ "first_value" ∷ "flatten" ∷ "floor" ∷ "greatest" ∷ "hash"
    ∷ "hour" ∷ "instr" ∷ "isnan" ∷ "isnull" ∷ "last" ∷ "last_day" ∷ "last_value" ∷ "least"
    ∷ "length" ∷ "lit" ∷ "log" ∷ "log10" ∷ "log1p" ∷ "lower" ∷ "lpad" ∷ "ltrim" ∷ "map_concat"
    ∷ "map_contains_key" ∷ "map_entries" ∷ "map_from_arrays" ∷ "map_from_entries" ∷ "map_keys"
    ∷ "map_values" ∷ "max" ∷ "max_by" ∷ "md5" ∷ "mean" ∷ "median" ∷ "min" ∷ "min_by" ∷ "minute"
    ∷ "mode" ∷ "month" ∷ "months_between" ∷ "nanvl" ∷ "next_day" ∷ "percentile"
    ∷ "percentile_approx" ∷ "pow" ∷ "power" ∷ "quarter" ∷ "radians" ∷ "regexp_extract"
    ∷ "regexp_extract_all" ∷ "regexp_replace" ∷ "repeat" ∷ "replace" ∷ "round" ∷ "rpad" ∷ "rtrim"
    ∷ "second" ∷ "sha1" ∷ "sha2" ∷ "size" ∷ "slice" ∷ "sort_array" ∷ "split" ∷ "sqrt" ∷ "stddev"
    ∷ "stddev_pop" ∷ "stddev_samp" ∷ "struct" ∷ "substring" ∷ "substring_index" ∷ "sum"
    ∷ "sum_distinct" ∷ "tan" ∷ "tanh" ∷ "to_date" ∷ "to_timestamp" ∷ "translate" ∷ "trim" ∷ "trunc"
    ∷ "unix_date" ∷ "unbase64" ∷ "upper" ∷ "var_pop" ∷ "var_samp" ∷ "variance" ∷ "when" ∷ "xxhash64"
    ∷ "year" ∷ []

-- `_ALLOWED_NODES`
abbrev pub allowed_nodes : List String
allowed_nodes =
    "Expression" ∷ "Call" ∷ "Name" ∷ "Load" ∷ "Attribute" ∷ "Constant" ∷ "List" ∷ "Tuple" ∷ "Dict"
    ∷ "Set" ∷ "keyword" ∷ "BinOp" ∷ "BoolOp" ∷ "UnaryOp" ∷ "Compare" ∷ "Subscript" ∷ "Slice" ∷ "Add"
    ∷ "Sub" ∷ "Mult" ∷ "Div" ∷ "FloorDiv" ∷ "Mod" ∷ "Pow" ∷ "BitAnd" ∷ "BitOr" ∷ "BitXor" ∷ "USub"
    ∷ "UAdd" ∷ "Invert" ∷ "And" ∷ "Or" ∷ "Eq" ∷ "NotEq" ∷ "Lt" ∷ "LtE" ∷ "Gt" ∷ "GtE" ∷ "Is"
    ∷ "IsNot" ∷ "In" ∷ "NotIn" ∷ []
