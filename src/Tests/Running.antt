-- ===== src/Tests/Running.antt =====
-- What a test unfolds, in groups: to unfold such a value is to unfold all that its line names.
use querylynx.Strings.{
  is_space, upper_rune, lower_rune, to_upper, to_lower, text_eq, trim_space, trim, trim_suffix,
  split, fields, join, has_prefix, index, last_index, decimal, print_int,
}
use querylynx.Strings.CaseRange.{map_rune}
use querylynx.Strings.UpperTable.{upper_table}
use querylynx.Strings.LowerTable.{lower_table}
use querylynx.Regex.{
  one_of, many, some_of, maybe, ◌then_match◌, either, group, is_word, boundary, folds, literal,
  is_word_folded, is_name_start_folded, is_blank, match_here, matches_here, match_string, find_all,
}
use querylynx.Safety.{split_statements, extract_first_keyword, is_allowed, strip, check}
use querylynx.Postgres.{limit_re, validate, validated_text}
use querylynx.Dict.{get, remove, put, flag}
use querylynx.Json.{read_in, read_all, unmarshal_strings}
use querylynx.Prompt
use querylynx.Rag.{
  routing_prompt, parse_table_list, known_names, keep_known, filter_known, all_table_names, route,
}
use querylynx.Sql.{
  in_reference, from_join_re, cte_re, normalize_table_ref, known_list, unknown_table, add_known,
  is_fine, check_refs, validate_tables, is_word_text, extract_sql, build_prompt, generate,
}
use querylynx.Context.{with_timeout}
use querylynx.Connector.Redact.{
  onto_matched, match_literal, match_value, kv_password, replace_from, redact_pairs, redact_parsed,
  redact_dsn,
}
use querylynx.Connector.{new_connector, opened}
use querylynx.Executor.{
  new_service, open_connection, validate_and_execute, close_connection, serve, serve_all,
}
use querylynx.Client.{error_text, result_text, direct_client}
use querylynx.Utf8.{decode_from, decode}
use querylynx.Json.Encode.{marshal_string}
use querylynx.Llm.Generate
use querylynx.Llm.Generate.{request, written}
use querylynx.Llm.{new_provider, default_model, redact_key, truncate}
use querylynx.Session.{new_registry, llm_router, register, get_session, close_session}
use querylynx.Session.Register.{outside}
use querylynx.Postgres.Session.{normalize, read_rows, execute}
use querylynx.Postgres.Catalog.{scan_rows}
use querylynx.Postgres.Introspection.{
  modify_at, add_column, add_key, introspect_columns, introspect_foreign_keys, few_samples,
  sample_values, fill_tables, introspect,
}
use querylynx.Postgres.Backend.{config_of, new, backend, pinged, pool_opened, validated_by, in_heap}
use querylynx.Explain.{record_stage, hex}
use querylynx.Pipeline.{correct, run}
use querylynx.Utf8.{encode, rune_size, first_size, count_from, rune_count}
use querylynx.Strings.Atoi.{digits_value, atoi}
use querylynx.Cli.Format.{repeat, pad_right, pad_left}
use querylynx.Cli.Table.{
  cell, clip, row_cells, widen, layout, cells_line, table_lines, print_lines, print_table,
}
use querylynx.Cli.Escape.{
  is_unreserved, hex_digit, unhex, escape_byte, query_escape, unescape_userinfo,
}
use querylynx.Cli.Console.{print, scan, prompt, prompt_default, choose}
use querylynx.Cli.Wizard.{
  field_dsn, register_message, total_rows, choose_provider, choose_dialect, read_secret,
  read_api_key, build_dsn, connect_wizard,
}
use querylynx.Cli.Ask.{print_trace, print_schema, print_outcome, read_input, ask_rounds, ask_loop}
use querylynx.Cli.Ask.Questions.{questions}
use querylynx.Cli.Main.{agent}

unfoldable pub run_strings : Unit {0}
unfolding is_space upper_rune lower_rune map_rune upper_table lower_table to_upper to_lower text_eq
    trim_space trim trim_suffix split fields join has_prefix index last_index decimal print_int
run_strings = tt

unfoldable pub run_regex : Unit {0}
unfolding one_of many some_of maybe ◌then_match◌ either group is_word boundary folds literal
    is_word_folded is_name_start_folded is_blank match_here matches_here match_string find_all
run_regex = tt

unfoldable pub run_safety : Unit {0}
unfolding run_strings run_regex split_statements extract_first_keyword is_allowed strip check
    limit_re validate
run_safety = tt

unfoldable pub run_rag : Unit {0}
unfolding run_strings get remove put flag read_in read_all unmarshal_strings Prompt.column_line
    Prompt.table_text Prompt.schema Prompt.subset routing_prompt parse_table_list known_names
    keep_known filter_known all_table_names route
run_rag = tt

unfoldable pub run_sql : Unit {0}
unfolding run_strings run_regex get remove put flag Prompt.column_line Prompt.table_text
    Prompt.schema Prompt.subset in_reference from_join_re cte_re normalize_table_ref known_list
    unknown_table add_known is_fine check_refs validate_tables is_word_text extract_sql build_prompt
    generate
run_sql = tt

unfoldable pub run_pipeline : Unit {0}
unfolding run_rag run_sql with_timeout record_stage hex correct run
run_pipeline = tt

unfoldable pub run_executor : Unit {0}
unfolding run_strings get remove put hex new_connector opened new_service open_connection
    validate_and_execute close_connection serve serve_all error_text result_text direct_client
    new_provider default_model redact_key truncate new_registry llm_router register get_session
    close_session outside
run_executor = tt

unfoldable pub run_postgres : Unit {0}
unfolding run_strings get remove put normalize read_rows execute modify_at add_column add_key
    scan_rows introspect_columns introspect_foreign_keys few_samples sample_values fill_tables
    introspect
run_postgres = tt

unfoldable pub run_cli : Unit {0}
unfolding run_executor run_pipeline encode rune_size first_size count_from rune_count digits_value
    atoi repeat pad_right pad_left cell clip row_cells widen layout cells_line table_lines
    print_lines print_table is_unreserved hex_digit unhex escape_byte query_escape unescape_userinfo
    print scan prompt prompt_default choose field_dsn register_message total_rows choose_provider
    choose_dialect read_secret read_api_key build_dsn connect_wizard print_trace print_schema
    print_outcome read_input ask_rounds ask_loop questions agent
run_cli = tt

unfoldable pub run_whole : Unit {0}
unfolding run_executor run_safety run_postgres config_of new backend validated_text pinged
    pool_opened validated_by in_heap
run_whole = tt

unfoldable pub run_generate : Unit {0}
unfolding run_cli decode_from decode marshal_string request written Generate.generate
run_generate = tt

unfoldable pub run_redact : Unit {0}
unfolding run_strings run_regex onto_matched match_literal match_value kv_password replace_from
    redact_pairs redact_parsed redact_dsn
run_redact = tt
