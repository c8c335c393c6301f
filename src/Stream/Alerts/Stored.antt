-- ===== src/Stream/Alerts/Stored.antt =====
-- What `_write_anomaly_alerts_pg` of src/processing/stream_processor.py stores.
