-- ===== src/Tests/LoggerRuns.antt =====
-- A line that is printed and one that is not.
use linux_mqtt_sn_gateway.Base.{◌≡◌, [], ◌∷◌, codes, ◌++◌}
use linux_mqtt_sn_gateway.Logger.{
  new_logger, log, start_log, append_logs, joined, append_logs-start_log,
}

append_logs-start_log_example :
    append_logs
      (codes "3" ∷ codes " of 4" ∷ [])
      (start_log (codes "120") (codes "sent ") 1 new_logger)
    ≡ log
        (codes "120")
        (codes "sent " ++ joined (codes "3" ∷ codes " of 4" ∷ []))
        1
        (record new_logger { last_started_log_lvl = 1 })
append_logs-start_log_example =
    append_logs-start_log (codes "120") (codes "sent ") (codes "3" ∷ codes " of 4" ∷ []) 1
      new_logger
